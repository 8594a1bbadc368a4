-- ===== src/Ledger/Register.antt =====
-- What the registration of a match does to the ledger: handleMatch of pkg/handlers/match.go, and
-- registerInteractiveMatch of pkg/handlers/match_interactive.go.
use ttbot_repo_placeholder.Prelude.{
  ℕ, ◌≡◌, refl, sym, subst, ◌∙◌, ap, ◌+◌, ◌^◌, ◌%◌, Bool, true, false, not, ◌&&◌, none, some, arith,
  eqb, if◌then◌else◌,
}
use ttbot_repo_placeholder.GoMap
use ttbot_repo_placeholder.GoMap.{GoMap, nat_eq, get-put}
use ttbot_repo_placeholder.Text.{Text}
use ttbot_repo_placeholder.Models.{Group, Match}
use ttbot_repo_placeholder.Validation.{Score}
use ttbot_repo_placeholder.Store.{
  Store, MatchKey, VoteKey, match_key, vote_key, match_key_eqb, vote_key_eqb,
}
use ttbot_repo_placeholder.Store.Matches.{allocate_and_insert_match}
use ttbot_repo_placeholder.Store.Votes.{insert_confirmation}
use ttbot_repo_placeholder.Store.Keyed.{vote}
use ttbot_repo_placeholder.Messages.{Message}
use ttbot_repo_placeholder.Bot.{Env, Bot, call, is_chat_admin, writes, start_refresh}
use ttbot_repo_placeholder.Ledger.{Ledger, ledger, ledger_of}
use ttbot_repo_placeholder.Ledger.Frame.{ledger-render_match, ledger-missing_nicknames}
use ttbot_repo_placeholder.Handlers.Replies.{call_error}
use ttbot_repo_placeholder.Handlers.Register.{new_match, allocate, confirm_own}
use ttbot_repo_placeholder.Handlers.Resolve.{MatchPlayer}
use ttbot_repo_placeholder.Handlers.MatchCommand.{announce_match, register_match}
use ttbot_repo_placeholder.Handlers.Taps.{finish_interactive, register_interactive_match}

-- The id that the next match of a group gets: one more than its counter, as a uint64.
abbrev pub next_id : ℕ → Ledger → ℕ
next_id gid l = ((elim (GoMap.get gid l.match_counters) [ none ↦ 0 | some n ↦ n ]) + 1) % 2 ^ 64

-- One new match, with its author's confirmation unless the author is an admin.
pub record RegisterEffect (now : ℕ) (row : Match) (admin : Bool) (before after : Ledger)
    : Type 0 where
  pub rows :
      (k : MatchKey)
      → GoMap.get k after.matches ≡ (
          if match_key_eqb (record { group = row.group_id; match_id = row.match_id }) k
          then some row
          else GoMap.get k before.matches)
  pub votes :
      (k : VoteKey)
      → GoMap.get k after.confirmations ≡ (
          if not admin && vote_key_eqb (vote row.group_id row.match_id row.registered_by) k
          then some (record {
            group_id = row.group_id;
            match_id = row.match_id;
            telegram_id = row.registered_by;
            confirmed_at = now;
          })
          else GoMap.get k before.confirmations)
  pub counters :
      (g : ℕ)
      → GoMap.get g after.match_counters
        ≡ (if eqb row.group_id g then some row.match_id else GoMap.get g before.match_counters)
  pub requests : after.undos ≡ before.undos
  pub groups : after.groups ≡ before.groups

module _ (env : Env) where
  -- The ledger with one confirmation more, unless the author is an admin.
  abbrev pub with_vote : ℕ → ℕ → ℕ → Bool → Ledger → Ledger
  with_vote gid mid by admin l = if admin then l else record l {
    confirmations =
        GoMap.put (vote gid mid by)
          (record { group_id = gid; match_id = mid; telegram_id = by; confirmed_at = env.now })
          l.confirmations;
  }

  with_match_effect :
      (gid p1 p2 : ℕ) (s : Score) (by : ℕ) (admin : Bool) (st : Store)
      → let build = new_match env.now gid p1 p2 s by admin in
        let r = allocate_and_insert_match gid build st in
        RegisterEffect env.now
          (build (next_id gid (ledger_of st)))
          admin
          (ledger_of st)
          (with_vote gid r.0 by admin (ledger_of r.1))
  unfolding allocate_and_insert_match new_match
  with_match_effect gid p1 p2 s by admin st = record {
    rows = λ k. ground (
      arith,
      get-put (record { group = gid; match_id = next_id gid (ledger_of st) }) k
          (new_match env.now gid p1 p2 s by admin (next_id gid (ledger_of st))) st.matches,
    );
    votes = λ k. ground (
      arith,
      get-put (vote gid (next_id gid (ledger_of st)) by) k
          (record {
            group_id = gid;
            match_id = next_id gid (ledger_of st);
            telegram_id = by;
            confirmed_at = env.now;
          })
          st.confirmations,
    );
    counters = λ g. ground (arith, get-put gid g (next_id gid (ledger_of st)) st.match_counters);
    requests = ground arith;
    groups = ground arith;
  }

  ledger-announce_match :
      (m : Message) (g : Group) (mid : ℕ) (admin : Bool) (body : Text) (b : Bot)
      → ledger (announce_match env m g mid admin body b).1
        ≡ with_vote g.group_id mid m.from.id admin (ledger b)
  unfolding announce_match call confirm_own writes call_error start_refresh insert_confirmation
  ledger-announce_match m g mid admin body b = ground arith

  pub ledger-register_match :
      (m : Message) (g : Group) (s : Score) (p1 p2 : MatchPlayer) (b : Bot)
      → eqb p1.telegram_id p2.telegram_id ≡ false
      → let admin = is_chat_admin env m.chat.id m.from.id in
        let build = new_match env.now g.group_id p1.telegram_id p2.telegram_id s m.from.id admin in
        let r = allocate_and_insert_match g.group_id build b.store in
        ledger (register_match env m g s p1 p2 b).1
        ≡ with_vote g.group_id r.0 m.from.id admin (ledger_of r.1)
  unfolding register_match allocate
  ledger-register_match m g s p1 p2 b d = rw (d) (
      ledger-announce_match m g _ (is_chat_admin env m.chat.id m.from.id) _ _
      ∙ ap (with_vote g.group_id _ m.from.id (is_chat_admin env m.chat.id m.from.id))
          (ledger-missing_nicknames env p1 p2 _ ∙ ledger-render_match env g.group_id _ _ _))

  ledger-finish_interactive :
      (g : Group) (owner mid : ℕ) (admin : Bool) (body : Text) (b : Bot)
      → ledger (finish_interactive env g owner mid admin body b).1
        ≡ with_vote g.group_id mid owner admin (ledger b)
  unfolding finish_interactive start_refresh confirm_own writes insert_confirmation
  ledger-finish_interactive g owner mid true body b = refl
  ledger-finish_interactive g owner mid false body b = refl

  pub ledger-register_interactive :
      (g : Group) (owner opp : ℕ) (s : Score) (b : Bot)
      → eqb owner opp ≡ false
      → let admin = is_chat_admin env g.group_id owner in
        let build = new_match env.now g.group_id owner opp s owner admin in
        let r = allocate_and_insert_match g.group_id build b.store in
        ledger (register_interactive_match env g owner opp s b).1
        ≡ with_vote g.group_id r.0 owner admin (ledger_of r.1)
  unfolding register_interactive_match allocate
  ledger-register_interactive g owner opp s b d = rw (d) (
      ledger-finish_interactive g owner _ (is_chat_admin env g.group_id owner) _ _
      ∙ ap (with_vote g.group_id _ owner (is_chat_admin env g.group_id owner))
          (ledger-render_match env g.group_id _ _ _))

  -- The owner of the picker registers a match against another player by its confirm button: one match
  -- is added under the next id of the group, the owner's confirmation with it unless they are an admin
  -- of the group's chat, and nothing else in the ledger changes.
  pub register_interactive_effect :
      (g : Group) (owner opp : ℕ) (s : Score) (b : Bot)
      → eqb owner opp ≡ false
      → let admin = is_chat_admin env g.group_id owner in
        RegisterEffect env.now
          (new_match env.now g.group_id owner opp s owner admin (next_id g.group_id (ledger b)))
          admin
          (ledger b)
          (ledger (register_interactive_match env g owner opp s b).1)
  register_interactive_effect g owner opp s b d =
      let admin = is_chat_admin env g.group_id owner in
      subst
        (RegisterEffect env.now
          (new_match env.now g.group_id owner opp s owner admin (next_id g.group_id (ledger b)))
          admin (ledger b))
        (sym (ledger-register_interactive g owner opp s b d))
        (with_match_effect g.group_id owner opp s owner admin b.store)

  -- The same for a match that is registered by /match.
  pub register_match_effect :
      (m : Message) (g : Group) (s : Score) (p1 p2 : MatchPlayer) (b : Bot)
      → eqb p1.telegram_id p2.telegram_id ≡ false
      → let admin = is_chat_admin env m.chat.id m.from.id in
        RegisterEffect env.now
          (new_match env.now g.group_id p1.telegram_id p2.telegram_id s m.from.id admin
            (next_id g.group_id (ledger b)))
          admin
          (ledger b)
          (ledger (register_match env m g s p1 p2 b).1)
  register_match_effect m g s p1 p2 b d =
      let admin = is_chat_admin env m.chat.id m.from.id in
      subst
        (RegisterEffect env.now
          (new_match env.now g.group_id p1.telegram_id p2.telegram_id s m.from.id admin
            (next_id g.group_id (ledger b)))
          admin (ledger b))
        (sym (ledger-register_match m g s p1 p2 b d))
        (with_match_effect g.group_id p1.telegram_id p2.telegram_id s m.from.id admin b.store)
