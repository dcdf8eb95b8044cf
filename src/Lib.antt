-- ===== src/Lib.antt =====
-- FetchNow: the core of the backend (backend/src/fetchnow/), as functions on values.
--
-- The program takes a link to a media page, queues a job that inspects it, downloads a format that
-- the user picks, and streams the artifact; users without Premium have a quota, which is spent when
-- the server has seen every byte of an artifact go out. The parts modelled here:
--
--   Jobs        jobs/states.py, jobs/errors.py, jobs/models.py, jobs/repository.py: the queue of
--               inspection jobs. States is the state machine, Model the table `media_jobs` with its
--               CHECK constraints, Repository, Worker and Reaper the methods of
--               `MediaJobRepository`. RowStep says what may happen to one row; Refinement and
--               TableStep compare the methods with it; Rules states the rule of each method in the
--               columns' own terms; History runs any sequence of calls, and Lease follows a lease
--               through one.
--   Downloads   downloads/states.py and downloads/progress.py (States, Stages): the public states
--               and the stages of a download; downloads/byte_progress.py (ByteProgress): the
--               percentage and the gate before its writes; Errors: the codes of downloads/errors.py;
--               Model: the table `media_download_jobs` of downloads/models.py with its CHECK
--               constraints; Grants: downloads/grant_models.py and downloads/grant_repository.py;
--               Slot: a job with its quota entry, the ranges of that entry and the job's grants, and
--               the quota steps of downloads/repository.py; Worker, Progress and Reaper: the methods
--               of `MediaDownloadJobRepository`. Moves says what may happen to a slot; History runs
--               any sequence of calls on one.
--   Quota       quota/delivery.py and quota/models.py: Intervals is `normalize_intervals`, Model the
--               tables, Ranges the helpers, and Delivery the methods of `DeliveryQuotaAccounting`.
--               Admission: the policy, the rolling window and `admit_locked` of quota/policy.py,
--               quota/repository.py and quota/service.py.
--   Delivery    delivery/range_parse.py (RangeParse): the parser of a Range header;
--               delivery/cookie_parse.py (Cookie): the token in a Cookie header; delivery/service.py
--               (Authorize): who may read an artifact; downloads/grant_service.py with
--               downloads/grant_repository.py (Issue, Cleanup): the issue of a browser grant and the
--               deletion of those that are spent.
--   Tokens      jobs/credentials.py and downloads/browser_grant_tokens.py: the tokens of clients and the
--               digests (Hashes) under which they are stored.
--   Filenames   downloads/filename.py: Rfc8187 is the codec of the extended parameter, Stem the name that
--               a title suggests, Disposition the Content-Disposition header; Utf8 is the codec of
--               Python's library on which they stand.
--   Inspection  media_inspection/models.py and media_inspection/size_estimate.py (Formats), and
--               media_inspection/mux_pairing.py (Mux): the pairing of video with audio streams.
--   Payments    payments/states.py, payments/models.py and premium/models.py (Model): the orders, their
--               CHECK constraints, and entitlements; payments/robokassa.py (Amount, Signature): the
--               texts of amounts and the signature of a callback; payments/repository.py (Orders);
--               payments/service.py and premium/repository.py (Callback): a callback and the
--               entitlement that it gives. History runs any sequence of calls on one order. Premium:
--               premium/repository.py, premium/policy.py and premium/reconcile.py, the Premium status of
--               a client and the reconciliation.
--   Prelude     shared helpers, Texts lemmas on texts, Examples concrete inputs. All paths are below backend/src/fetchnow/.
--
-- The database. A table is the list of its rows. A method is a function from the table, its
-- arguments and what the database chooses, to its result with the table after the transaction; it
-- is a `Result` where the method may raise, and a raise rolls the transaction back. `clock` is the
-- reading of `clock_timestamp()` by one statement, so each of its occurrences in one statement has
-- the same value; `now` is the method's argument. Times are natural numbers of microseconds. `locked` holds
-- the rows that SKIP LOCKED passes over, and `seen` is the table that the unlocked SELECT of
-- `fail_retry` reads. The other reads of a transaction see one version of the table, which the row
-- locks (or the lock on the anonymous client) give. A UUID is a number, a new one is an argument,
-- and a hash is the list of its bytes. An INSERT fails exactly when it breaks a constraint that is
-- modelled. A column with an enumeration CHECK has the type of the enumeration, and a column
-- with a nonnegative CHECK is a natural number: a value outside cannot be stored. JSON documents
-- are of any type `Json`. Collisions of the new UUIDs of grants, ranges and entitlements and of the
-- hashes of grant tokens, column lengths, BIGINT bounds and the CHECK constraints of quota entries are
-- not modelled.
--
-- Quota accounting. `Ledger` is what the transactions on one download job read and write: the job,
-- whether its anonymous client exists, its quota entry, and the ranges of that entry. The offsets
-- of a request are natural numbers, so `begin` needs no test of `start < 0`. Authorising again
-- inside `begin` is an argument, `revalidated`. `uuid4` is a function from the number of the call.
-- The flush of a range that breaks a CHECK constraint raises an IntegrityError, `integrity_error`:
-- where `begin` and `_compact_closed` insert a row, and where `checkpoint` and `finalize` change one.
--
-- Download jobs. A method changes one job, so it is a function of that job's `Slot`; the quota entry
-- is an Option, since the table has at most one per job. The methods that treat a batch are given for
-- one job, with the clock's readings when the ids are listed, when the row is locked and when the
-- quota entry is dated (`Clocks`), and with an argument that tells whether the row was passed over.
-- `store` is a write whose values may break a CHECK constraint, which raises an IntegrityError: the
-- code of a failure and the stage of a report. What the decoders of downloads/snapshot_codec.py find
-- in a snapshot is its `policy_part`. The lock prefix is held while the entry is read again, so no
-- entry disappears in between; the tests for that in the quota steps stay, but never fire.
--
-- Admission. The Premium service's answer is an argument, `capability`; of a policy only what
-- admission reads is kept. `consumed_at > now - window` is written `now < consumed_at + window`. The
-- client's row is locked from the first read to the reservation, so both see one table.
--
-- Percentages. The monotonic clock is read where the code reads it, and never goes back; its
-- readings, the intervals and the backoff are natural numbers of one unit, without the rounding of
-- floating point. `persist` is a function of the percentage. The tests for arguments of a wrong
-- Python type are left out, since the types exclude them; so is the logging.
--
-- Range headers. A header is the list of its code points, which are below 256, as the server
-- decodes headers from Latin-1. `str.strip`, `str.lower` and `str.isdigit` are written out for
-- these code points. `int` raises a ValueError at a digit that is not decimal.
--
-- Payments. A method changes one order, so it is a function of that order with its entitlement
-- (`Purchase`): the table has at most one entitlement per order. SHA-256 is an argument, a function
-- from a text to its hexadecimal digest; no property of it is used. A text is the list of its code
-- points. `Decimal(raw) * 100` is written out as an integer product that is rounded, half to even, to
-- 28 digits, the precision of Python's default context. An invoice number is a natural number.
--
-- Tokens and grants. SHA-256 is an argument, a function between byte strings; the code refuses a digest
-- that is not of 32 bytes. The base64url codec is written out for whole bytes. `hmac.compare_digest` is
-- equality. The services read three tables, `Tables`; a row that is inserted stands in front of the
-- others. The random bytes, the id of the grant and the texts of ids are arguments. One reading of the
-- clock is an argument of each call. Of the policy of a delivery it is kept which one applies.
--
-- Attachment names. A text is the list of its code points. The Unicode Character Database is an
-- argument, `UnicodeData`: the normal form, the characters of the categories C and of white space, and
-- upper case. `IsUnicode` says what is relied on: surrogates are in a category C, and the normal form of
-- code points has code points. The container's text is below 256. UTF-8 is written out, with the strict
-- decoder and the one that drops errors.
--
-- Pairing of streams. A floating-point number is of any type with the operations of `Floats`, and the
-- dimensions and sizes are natural numbers. SHA-256 is an argument that gives the digest's digits. A
-- dictionary of options by id is the list of the options that were kept, in which the id is looked up.
--
-- Premium. The table of orders is a list of orders with their entitlements; the loop of the
-- reconciliation changes copies of the rows, which a flush writes back by their primary keys.
--
-- Loops are structural recursion over a list, but for three: `read_pieces`, the loop of
-- `decode_rfc8187`, is on fuel, as many rounds as the text has characters, which is shown to be enough; `print` recurses on fuel `n` for a number
-- `n`, which has fewer digits than that or is 0, and the theorem on amounts shows that it prints all
-- of them; `round_28` recurses on the digits dropped, of which a product of 64 characters by 100 has
-- fewer than its fuel of 66.
--
-- Not modelled: `enqueue_or_get` of download jobs, the claim order and the table of all download
-- jobs; reconciliation and cleanup of quota entries; the catalog and the receipts
-- of payments; URL validation, provider resolution, the rest of media inspection, capabilities, the
-- codecs of snapshots, `is_safe_suggested_filename`; and input and output: the HTTP routes,
-- streaming, subprocesses, files, sockets, worker loops, configuration and logging.
mod Prelude
pub mod Jobs
pub mod Payments
pub mod Downloads
pub mod Quota
pub mod Delivery
pub mod Inspection
pub mod Texts
pub mod Filenames
pub mod Tokens
mod Examples
