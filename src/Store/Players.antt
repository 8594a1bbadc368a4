-- ===== src/Store/Players.antt =====
-- The participant and group repositories of pkg/store/memstore/memstore.go.
use ttbot_repo_placeholder.Prelude.{
  ℕ, ◌+◌, List, [], ◌∷◌, map, leb, eqb, ◌&&◌, true, if◌then◌else◌, Bool,
}
use ttbot_repo_placeholder.GoMap
use ttbot_repo_placeholder.GoMap.{GoMap, nat_eq}
use ttbot_repo_placeholder.Text.{Text, text_eqb}
use ttbot_repo_placeholder.Models.{Participant, Group}
use ttbot_repo_placeholder.Store.Tables.{Store, ParticipantKey, participant_key}
use ttbot_repo_placeholder.Store.Matches.{Found, found, not_found, of_option}

-- participantRepo.Get
unfoldable pub get_participant : ℕ → ℕ → Store → Found Participant
get_participant gid uid s =
    of_option (GoMap.get (record { group = gid; user = uid }) s.participants)

fold_letter : ℕ → ℕ
fold_letter c = if leb b'A' c && leb c b'Z' then c + 32 else c

-- strings.EqualFold, on ASCII names: a Telegram username has letters, digits and underscores.
unfoldable pub equal_fold : Text → Text → Bool
unfolding fold_letter
equal_fold a b = text_eqb (map fold_letter a) (map fold_letter b)

unfoldable pub first_named : ℕ → Text → GoMap ParticipantKey Participant → Found Participant
first_named gid username [] = not_found
first_named gid username ((k, p) ∷ rows) =
    if eqb k.group gid && equal_fold p.telegram_username username
    then found p
    else first_named gid username rows

-- participantRepo.GetByUsername
unfoldable pub get_by_username : ℕ → Text → Store → Found Participant
get_by_username gid username s = first_named gid username s.participants

-- participantRepo.ListByGroup
unfoldable pub list_participants : ℕ → Store → List Participant
list_participants gid s = GoMap.values_where (λ k. eqb k.group gid) s.participants

-- participantRepo.Upsert
unfoldable pub upsert_participant : Participant → Store → Store
upsert_participant p s = record s {
  participants = GoMap.put (record { group = p.group_id; user = p.telegram_id }) p s.participants;
}

-- groupRepo.Get
unfoldable pub get_group : ℕ → Store → Found Group
get_group gid s = of_option (GoMap.get gid s.groups)

unfoldable pub first_of_campus : Text → GoMap ℕ Group → Found Group
first_of_campus cid [] = not_found
first_of_campus cid ((k, g) ∷ rows) =
    if text_eqb g.campus_id cid then found g else first_of_campus cid rows

-- groupRepo.GetByCampus
unfoldable pub get_group_by_campus : Text → Store → Found Group
get_group_by_campus cid s = first_of_campus cid s.groups

-- groupRepo.Upsert
unfoldable pub upsert_group : Group → Store → Store
upsert_group g s = record s { groups = GoMap.put g.group_id g s.groups }

-- groupRepo.List
unfoldable pub list_groups : Store → List Group
list_groups s = GoMap.values_where (λ _. true) s.groups
