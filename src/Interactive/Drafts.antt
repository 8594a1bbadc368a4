-- ===== src/Interactive/Drafts.antt =====
-- The draft map of pkg/handlers/match_interactive.go: loadOrRestoreDraft, storeDraft, dropDraft and the
-- sweep gcDraftsLocked. The map's lock makes each of them one step.
use ttbot_repo_placeholder.Prelude.{
  ℕ, ◌-◌, ◌*◌, Bool, true, not, ◌&&◌, ◌≡◌, ◌↔◌, Option, none, some, List, [], ◌∷◌, arith, ltb, leb,
  eqb, length, take, if◌then◌else◌,
}
use ttbot_repo_placeholder.GoMap
use ttbot_repo_placeholder.GoMap.{GoMap, Key}
use ttbot_repo_placeholder.Sort.{sort_slice}
use ttbot_repo_placeholder.Text.{Text}
use ttbot_repo_placeholder.Bot.{Act, Draft, DraftKey}
use ttbot_repo_placeholder.Interactive.Header.{parse_draft_from_header}

abbrev pub draft_key_eqb : DraftKey → DraftKey → Bool
draft_key_eqb a b = eqb a.chat b.chat && eqb a.message_id b.message_id

pub draft_key_eqb_iff : (a b : DraftKey) → (draft_key_eqb a b ≡ true) ↔ (a ≡ b)
draft_key_eqb_iff a b = ground arith

instance abbrev pub draft_key : Key DraftKey
draft_key = record { same = draft_key_eqb; same_iff = draft_key_eqb_iff }

abbrev pub match_draft_stale_after : ℕ
match_draft_stale_after = 30 * 60 * 1_000_000_000

abbrev pub match_draft_max_entries : ℕ
match_draft_max_entries = 5000

-- A draft that the first pass of the sweep drops. The zero time marks one that was never touched.
unfoldable pub is_abandoned : ℕ → Draft → Bool
is_abandoned now d = not (eqb d.touched_at 0) && ltb match_draft_stale_after (now - d.touched_at)

unfoldable pub drop_abandoned : ℕ → GoMap DraftKey Draft → GoMap DraftKey Draft
drop_abandoned now [] = []
drop_abandoned now ((k, d) ∷ ds) =
    let rest = drop_abandoned now ds in if is_abandoned now d then rest else (k, d) ∷ rest

unfoldable pub drop_keys : List (DraftKey × Draft) → GoMap DraftKey Draft → GoMap DraftKey Draft
drop_keys [] ds = ds
drop_keys ((k, _) ∷ ks) ds = drop_keys ks (GoMap.delete k ds)

unfoldable pub touched_before : DraftKey × Draft → DraftKey × Draft → Bool
touched_before a b = ltb a.1.touched_at b.1.touched_at

-- The second pass: over the cap, the drafts that were touched first go.
unfoldable pub cap_drafts : ℕ → GoMap DraftKey Draft → GoMap DraftKey Draft
cap_drafts max ds =
    if leb (length ds) max
    then ds
    else drop_keys (take (length ds - max) (sort_slice touched_before ds)) ds

-- gcDraftsLocked
unfoldable pub gc_drafts : ℕ → GoMap DraftKey Draft → GoMap DraftKey Draft
gc_drafts now ds = cap_drafts match_draft_max_entries (drop_abandoned now ds)

-- storeDraft
unfoldable pub store_draft : ℕ → DraftKey → Draft → Act (Unit {0})
store_draft now k d b =
    (tt, record b { drafts = gc_drafts now (GoMap.put k (record d { touched_at = now }) b.drafts) })

-- dropDraft
unfoldable pub drop_draft : DraftKey → Act (Unit {0})
drop_draft k b = (tt, record b { drafts = GoMap.delete k b.drafts })

-- The draft rebuilt from the prompt's text.
unfoldable pub restore_draft : ℕ → DraftKey → Option Draft → Act (Option Draft)
restore_draft now k none b = (none, b)
restore_draft now k (some d) b =
    let d' = record d { touched_at = now } in
    (some d', record b { drafts = gc_drafts now (GoMap.put k d' b.drafts) })

-- loadOrRestoreDraft. The draft that it returns is a pointer, so the caller keeps it though the sweep
-- may take it off the map.
unfoldable pub load_or_restore_draft : ℕ → DraftKey → Text → Act (Option Draft)
load_or_restore_draft now k msg_text b = elim (GoMap.get k b.drafts) [
  | some d ↦ (some d, record b { drafts = gc_drafts now b.drafts })
  | none ↦ restore_draft now k (parse_draft_from_header msg_text) b
]
