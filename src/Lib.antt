-- ===== src/Lib.antt =====
-- The coin economy of a platform for translated web novels (what a reader pays, what a wallet holds,
-- what a translator earns), the rule that decides who is served a chapter, the sessions of its
-- accounts, the publication of chapters, and the rendering of their glossary markers.
--
-- Wallet/Types holds the data (backend/internal/domain/wallet: wallet.go, command.go, errors.go).
-- Wallet/Spend is the planners of domain/wallet/spend.go: PlanSpend, PlanSpendPaidOnly, PlanCredit,
-- PlanAdjust and PlanBonusExpiry turn a balance and a request into a ledger entry, a write-off of
-- lapsed bonus, and the balance that results. Wallet/Bundle is domain/wallet/bundle.go (QuoteBundle,
-- AllocateProportional) and NetCoins of wallet.go. Wallet/Store is the tables (entities/wallet.go and
-- backend/migrations), Wallet/Apply the transaction of repository/wallet/apply.go that every coin
-- goes through: its planner, the rows beside the ledger row, and the replay of a repeated key.
-- Wallet/Service is the use cases of service/wallet/service.go, which check a request against what is
-- for sale and build its command. Their reads of the tables that the write path leaves alone
-- (ChapterForSale, ArcChaptersForSale, IsSubscribed, GetPack) are a record of operations, so a theorem
-- about the service holds for any contents of those tables.
--
-- Reading is domain/reading (entitlement.go, visibility.go) and GetChapter of
-- service/reading/service.go; it reaches the coin economy through two ports, the entitlement and the
-- subscription lookup, which are functions here, so a query may fail or a port be absent.
--
-- Identity is the sessions. Identity/Types holds the data (domain/identity), Identity/Sessions the
-- store of refresh tokens (repository/identity/sessions.go), whose Rotate exchanges a token and
-- revokes the family of a token that is presented again, and Identity/Service is Login, Refresh and
-- Logout of service/identity/service.go. Hashing, signing, base64 and random bytes are arguments.
-- Identity/Genres is a reader's taste weights: SetGenrePrefs, and ReplaceGenrePrefs and ListGenrePrefs of
-- repository/identity/repository.go.
--
-- Glossary is glossaryrender/render.go: markers in a chapter's source become spans, and the entries
-- that are bound and the keys that are unknown are reported.
--
-- Writer is the life of a chapter in the translator's workspace. Writer/Types holds the rows
-- (entities), Writer/Rules the pure rules of domain/writer/rules.go, Writer/Store and Writer/Publish the
-- transactions of repository/writer/repository.go and the scheduler of jobs/jobs.go, Writer/Rerender the
-- job that renders chapters again after a change of the glossary, Writer/Studio the use cases of service/writer/service.go, and Writer/History what they come to over time. A chapter is
-- rendered by Glossary when it is published, and Reading's visibility rule is applied to its row.
--
-- The children of these modules hold the proofs: Spend/Totals and Spend/Grants on the planners,
-- Bundle/Rounds, Bundle/Shares and Bundle/Quote on bundles, Wallet/Books on the books over histories
-- of commands, Wallet/Once on requests that take effect once, and the children of Wallet/Service on
-- keys, bundles, sales of chapters and tips. Wallet/Service/Bundles is the quote and the purchase of an
-- arc. Reading/Access and Reading/Answers are on who is served. Identity/Sessions/Families, Spent,
-- Digests, Keys and Live are on the families and the digests of the tokens, Identity/Service/Renewals on a renewal,
-- Identity/Genres/Cleaned and Identity/Genres/Stored on the weights that are kept and stored, Glossary/Verbatim on
-- the text of a rendering, Glossary/Bound and Glossary/Report on its report. Writer/Prune is on the
-- autosaves (Order on their order, Rank on what is deleted), Writer/Rerender/Current on a run of that job, and of the children of Writer/History Effects is on what a transaction has done when it
-- succeeds, Stamps and Sound on the times of chapters, Outcomes and Requests on what is shown, Drafts,
-- Keys, Counts and Tally on the numbers of rows, Scheduler on scheduled chapters. Tests runs the model on concrete
-- data.
--
-- A Go int is an integer of 64 bits whose arithmetic wraps around; a theorem about it that needs a
-- bound has the bound as a hypothesis. An instant is an integer of nanoseconds. A column has its
-- range, a constraint its error. A transaction is a function from the tables to a result and the new
-- tables, and an error leaves the tables as they were; since the first act of the transaction locks
-- the wallet row of the user, the commands on one wallet come one after the other, and a history is
-- a list of commands. The loops run over lists, and the loop that hands out the
-- remainder of a bundle counts down the coins that are left; only the renderer's loop has fuel, one
-- more than the length of the source, and every turn of it shortens what is left of the source.
--
-- Not modelled: the HTTP handlers, the queries that only list rows, the database driver, rate
-- limiting and statistics, which use floating point, registration and preferences, the management of
-- novels, arcs and series, the social features and the library. The clock is an argument. Rotate's
-- transaction and the one that revokes a family after it are one step here: no call comes in between.
pub mod Common
pub mod Wallet
pub mod Reading
pub mod Identity
pub mod Glossary
pub mod Writer
mod Tests
