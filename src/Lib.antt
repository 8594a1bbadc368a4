-- ===== src/Lib.antt =====
-- ttbot registers table tennis matches in Telegram groups. A player or a chat admin announces a match by
-- /match or through an inline picker; the other player confirms it by a button, or somebody cancels it;
-- /undo flips a match between approved and undone; a periodic job removes what was never confirmed.
--
-- How the parts fit together: the store keeps participants, groups, matches and votes; the handlers read
-- and write it, ask the identity service for nicknames through two caches, and talk to the chat through
-- the messenger. Each part has its file:
--   Models        pkg/models/models.go, with the cache row of pkg/store/store.go
--   Store         pkg/store/memstore/memstore.go: Store/Tables the state, Store/Matches, Store/Votes,
--                 Store/Players and Store/Accounts the repositories, method by method (UpdateStatus is
--                 update_status, ListPendingExpired is list_pending_expired, and so on); Store/Laws and
--                 Store/Keyed hold lemmas
--   Validation    pkg/validation/validation.go (ParseScore, ParseIdentifier, ExtractMatchID and
--                 ParseAdminCredentials)
--   NickCache     pkg/identity/s21_nick_cache.go
--   Names         the lookups and the rendering of pkg/handlers/match.go, with pkg/identity/identity.go
--   Notify        pkg/notify/notify.go
--   Messages, Bot the records of pkg/messenger/messenger.go, and the state of pkg/handlers/handlers.go
--   Interactive   the drafts, headers and pickers of pkg/handlers/match_interactive.go
--   Handlers      pkg/handlers: Register, Resolve and MatchCommand are handleMatch; Confirm the two
--                 buttons under a match; Undo is handleUndo; Taps the taps of match_interactive.go;
--                 Callbacks is dispatchCallback with handleAddParticipantTap of dm.go; Periodic the
--                 clean-up of periodic.go, and Cron the rest of it; Rankings and Rankings/StatsTopic
--                 are rankings.go; Group is group.go; Accounts is login.go, logout.go, whoami.go,
--                 migrate.go and s21account_adapters.go; Usernames is refresh.go; Backfill is
--                 handleForwardedAdd of dm.go; Start is start.go; Dispatch is Dispatch and
--                 dispatchMessage of handlers.go
--   Ratings       pkg/rating: Ratings itself is rating.go, Ratings/Elo elo.go, Ratings/Periods
--                 groupByPeriod and Ratings/Glicko the rest of glicko2.go; Ratings/Order,
--                 Ratings/Periods/Windows and the Tallies prove what they promise
--   Ledger        no code of its own: the tables that decide what counts as played (matches,
--                 confirmations, undo requests, counters, groups), and what each handler does to them.
--                 Ledger/Steps is the abstract life of a match, as a step relation on those tables that
--                 knows neither messages nor caches but who acts and when, with its invariants
--   Refine        that every handler, and so every update, the periodic job and every run of them,
--                 takes only such steps
--   Tests         concrete runs
-- Prelude, GoMap, Sort and Text hold what the parts share: numbers and lists, Go's maps and sort.Slice,
-- and bytes, decimal numbers and query escapes.
--
-- Conventions. A handler is a function of the bot's state that gives back its result and the state it
-- leaves; the calls of the messenger are recorded in order. What the chat platform and the identity
-- service answer is a parameter (Bot.Env), for each call a function of the
-- calls before it; who is an admin of a chat is one answer for the whole of an update. An int64 is its pattern of 64
-- bits, a number below 2^64; a uint64 counter wraps at 2^64; a time is a number of nanoseconds. A map is
-- an association list in the order that a run happens to take. A mutex makes its method one step. The
-- detached refresh of the stats topic is recorded as requested; Refine/Runs has it as an event of its own,
-- with any group as its snapshot, and no two events of a run overlap. A float64 is an element of a type
-- with the operations that the engines use (Ratings.Floats), about which nothing is assumed.
--
-- Fuel. NickCache.evict_loop has the length of the list, one element of which goes in each round;
-- Interactive.Picker.grid_rows has the number of buttons; Text.Decimal.digits has 20 rounds,
-- enough for a number below 2^64; Ratings.Periods.advance has the number of periods up to the match, and
-- group_by_period answers `none` where the source's loop does not end. The
-- two loops of glicko2Update have no bound in the source, since their end depends on rounding, so
-- Ratings.Glicko takes their fuel as an argument and answers `none` when it runs out; the handlers take
-- the Glicko-2 engine as a parameter, any function of the matches.
--
-- Not modelled: the store on YDB (queries run by a database), the Telegram transport and its log
-- redaction, the School 21 client, encryption (a parameter of the account commands), the package
-- s21-account-go (likewise), rating.New, log lines, time limits of contexts, and the test harness.
pub mod Prelude
pub mod GoMap
pub mod Text
pub mod Models
pub mod Ratings
pub mod Sort
pub mod Store
pub mod NickCache
pub mod Bot
pub mod Names
pub mod Notify
pub mod Ledger
pub mod Refine
pub mod Validation
pub mod Messages
pub mod Interactive
pub mod Handlers
pub mod Tests
