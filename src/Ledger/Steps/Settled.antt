-- ===== src/Ledger/Steps/Settled.antt =====
-- A match that was approved once is never lost: it stays in the ledger, approved or undone, with its
-- players and scores. This needs the ids of new matches to be new, so it needs room in the counters.
use ttbot_repo_placeholder.Prelude.{
  ℕ, suc, ◌+◌, ◌<◌, ◌^◌, ◌≡◌, Bool, true, false, ◌&&◌, Option, none, some, arith, eqb,
}
use ttbot_repo_placeholder.GoMap
use ttbot_repo_placeholder.GoMap.{nat_eq, get-put, get-delete}
use ttbot_repo_placeholder.Models.{Match, MatchStatus, is_status}
use ttbot_repo_placeholder.Handlers.Undo.{toggled}
use ttbot_repo_placeholder.Store.{MatchKey, match_key, match_key_eqb_iff}
use ttbot_repo_placeholder.Ledger.{Ledger}
use ttbot_repo_placeholder.Ledger.Expiry.{key_of}
use ttbot_repo_placeholder.Ledger.Fresh.{count_of, CountedIds}
use ttbot_repo_placeholder.Ledger.Steps.{
  Cause, Step, Steps, Registration, then_register, registered, confirmed, approved, cancelled,
  expired, requested, flipped, withdrawn, lapsed, regrouped, stay, then_step, was_approved,
}
use ttbot_repo_placeholder.Ledger.Steps.Tables.{get-Linked}
use ttbot_repo_placeholder.Ledger.Steps.WellFormed.{WellFormed, Steps-WellFormed}

-- The row is there, was approved once, and differs from `m` in its status at most.
abbrev pub is_settled : Match → Option Match → Bool
is_settled m none = false
is_settled m (some n) =
    was_approved n
    && (eqb n.player1_id m.player1_id
        && (eqb n.player2_id m.player2_id
            && (eqb n.player1_score m.player1_score && eqb n.player2_score m.player2_score)))

-- Every counter can take `n` registrations more.
abbrev pub HasRoom : ℕ → Ledger → Type 0
HasRoom n l = (gid : ℕ) → count_of gid l + n < 2 ^ 64

-- What is kept along steps with at most `n` registrations, with room for `d` more.
pub record Kept (d : ℕ) (k : MatchKey) (row : Match) (m : Ledger) : Type 0 where
  pub room : HasRoom d m
  pub counted : CountedIds m
  pub settled : is_settled row (GoMap.get k m.matches) ≡ true

module _ (cause : Cause) where
  Registration-CountedIds :
      {l m : Ledger} → Registration cause l m → HasRoom 1 l → CountedIds l → CountedIds m
  Registration-CountedIds {l} (registered m i p s st a) room ids k = ground (
    arith,
    get-put (key_of m) k m l.matches,
    get-put m.group_id k.group m.match_id l.match_counters,
    match_key_eqb_iff (key_of m) k,
    ids k,
    i,
    room m.group_id,
  )

  Registration-HasRoom :
      (n : ℕ) {l m : Ledger} → Registration cause l m → HasRoom (suc n) l → HasRoom n m
  Registration-HasRoom n {l} (registered m i p s st a) room gid =
      ground
        (arith, get-put m.group_id gid m.match_id l.match_counters, i, room m.group_id, room gid)

  Registration-is_settled :
      {l m : Ledger} (k : MatchKey) (row : Match)
      → Registration cause l m
      → HasRoom 1 l
      → CountedIds l
      → is_settled row (GoMap.get k l.matches) ≡ true
      → is_settled row (GoMap.get k m.matches) ≡ true
  Registration-is_settled {l} k row (registered m i p s st a) room ids h = ground (
    arith,
    get-put (key_of m) k m l.matches,
    match_key_eqb_iff (key_of m) k,
    ids k,
    i,
    room m.group_id,
    h,
  )

  Step-CountedIds : {l m : Ledger} → Step cause l m → WellFormed l → CountedIds l → CountedIds m
  Step-CountedIds {l} (confirmed user j m g p d) w ids k = ids k
  Step-CountedIds {l} (approved user j m g p d a) w ids k = ground (
    arith,
    get-put (key_of m) k (record m { status = MatchStatus.approved }) l.matches,
    match_key_eqb_iff (key_of m) k,
    get-Linked key_of j m l.matches l.matches w.rows g,
    ids j,
    ids k,
    g,
  )
  Step-CountedIds {l} (cancelled user j m g p d) w ids k =
      ground (arith, get-delete j k l.matches, ids k)
  Step-CountedIds {l} (expired j m g p t a) w ids k =
      ground (arith, get-delete j k l.matches, ids k)
  Step-CountedIds {l} (requested user j m g p d) w ids k = ids k
  Step-CountedIds {l} (flipped user j m g p d a) w ids k = ground (
    arith,
    get-put (key_of m) k (record m { status = toggled m.status }) l.matches,
    match_key_eqb_iff (key_of m) k,
    get-Linked key_of j m l.matches l.matches w.rows g,
    ids j,
    ids k,
    g,
  )
  Step-CountedIds {l} (withdrawn v a) w ids k = ids k
  Step-CountedIds {l} (lapsed v u g t a) w ids k = ids k
  Step-CountedIds {l} (regrouped g a) w ids k = ids k

  Step-HasRoom : (n : ℕ) {l m : Ledger} → Step cause l m → HasRoom n l → HasRoom n m
  Step-HasRoom n (confirmed user j m g p d) room = room
  Step-HasRoom n (approved user j m g p d a) room = room
  Step-HasRoom n (cancelled user j m g p d) room = room
  Step-HasRoom n (expired j m g p d a) room = room
  Step-HasRoom n (requested user j m g p d) room = room
  Step-HasRoom n (flipped user j m g p d a) room = room
  Step-HasRoom n (withdrawn v a) room = room
  Step-HasRoom n (lapsed v u g t a) room = room
  Step-HasRoom n (regrouped g a) room = room

  Step-is_settled :
      {l m : Ledger} (k : MatchKey) (row : Match)
      → Step cause l m
      → WellFormed l
      → is_settled row (GoMap.get k l.matches) ≡ true
      → is_settled row (GoMap.get k m.matches) ≡ true
  unfolding is_status toggled
  Step-is_settled {l} k row (confirmed user j m g p d) w h = h
  Step-is_settled {l} k row (approved user j m g p d a) w h = ground (
    arith,
    get-put (key_of m) k (record m { status = MatchStatus.approved }) l.matches,
    match_key_eqb_iff (key_of m) k,
    get-Linked key_of j m l.matches l.matches w.rows g,
    g,
    p,
    h,
  )
  Step-is_settled {l} k row (cancelled user j m g p d) w h =
      ground (arith, get-delete j k l.matches, match_key_eqb_iff j k, g, p, h)
  Step-is_settled {l} k row (expired j m g p d a) w h =
      ground (arith, get-delete j k l.matches, match_key_eqb_iff j k, g, p, h)
  Step-is_settled {l} k row (requested user j m g p d) w h = h
  Step-is_settled {l} k row (flipped user j m g p d a) w h = ground (
    arith,
    get-put (key_of m) k (record m { status = toggled m.status }) l.matches,
    match_key_eqb_iff (key_of m) k,
    get-Linked key_of j m l.matches l.matches w.rows g,
    g,
    h,
  )
  Step-is_settled {l} k row (withdrawn v a) w h = h
  Step-is_settled {l} k row (lapsed v u g t a) w h = h
  Step-is_settled {l} k row (regrouped g a) w h = h

  room_one : (d : ℕ) (l : Ledger) → HasRoom (suc d) l → HasRoom 1 l
  room_one d l room gid = omega (arith, room gid)

  pub Steps-Kept :
      {n : ℕ} {l m : Ledger} (d : ℕ) (k : MatchKey) (row : Match)
      → Steps cause n l m
      → WellFormed l
      → HasRoom (n + d) l
      → CountedIds l
      → is_settled row (GoMap.get k l.matches) ≡ true
      → Kept d k row m
  Steps-Kept d k row stay w room ids h = record {
    room = λ gid. omega (arith, room gid);
    counted = ids;
    settled = h;
  }
  Steps-Kept d k row (then_step s t) w room ids h =
      let before = Steps-Kept d k row s w room ids h in
      let w' = Steps-WellFormed cause s w in
      record {
        room = Step-HasRoom d t before.room;
        counted = Step-CountedIds t w' before.counted;
        settled = Step-is_settled k row t w' before.settled;
      }
  Steps-Kept d k row (then_register {k = j} s t) w room ids h =
      let before = Steps-Kept (suc d) k row s w (λ gid. omega (arith, room gid)) ids h in
      let one = room_one d j before.room in
      record {
        room = Registration-HasRoom d t before.room;
        counted = Registration-CountedIds t one before.counted;
        settled = Registration-is_settled k row t one before.counted before.settled;
      }
