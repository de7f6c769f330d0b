-- ===== src/Lib.antt =====
-- Verification of phimtor2: a viewer that streams torrents to browsers and televisions, a manager that
-- places torrents on streamers, the streamers that hold them, and an admin site.
--
-- The parts of the program and their files here:
--   viewer/watchtracker.go            WatchTracker: who watches which torrent, and its drop after a grace
--   viewer/watchlog.go                WatchLog: the watched time that is gathered and flushed
--   viewer/ratelimit.go               RateLimiter: the sliding-window counter
--   manager/registry.go, instance.go  Registry: the live streamers and the owner of each torrent
--   manager/loadbalance.go, router.go Router: placement of new torrents, and routing of requests
--   manager/enrollment.go             Enrollment: the allow-list and its pinned fingerprints
--   viewer/billing.go, chain_evm.go   Billing: invoices, and the scan of a chain for their payments
--   viewer/session.go                 Session: signed cookies and tokens, and safe return paths
--   viewer/device.go, auth.go,
--     store.go (tv_devices)           Device: the pairing of televisions, and who a request is from
--   viewer/store.go (payment_invoices) Ledger: invoices, and what settling one grants
--   viewer/server.go, models.go       Gate: which resolutions a visitor may play
--   admin/sqlconsole.go               SqlConsole: quoting, dumps, and which statements return rows
--   admin/torrentfile.go              Bencode: the decoder of .torrent files, and the video among them
--   streamer/storage_prefixcache.go   PrefixCache: the bounded piece cache with eviction
--   streamer/storage_fdcache.go       FdCache: open file handles, counted and closed once
--   streamer/reaper.go                Reaper: idle and stalled torrents
-- The viewer's tracker decides when a torrent is dropped, the manager's router sends the drop and every
-- other request to the owner that the registry knows, and the streamer's caches hold the pieces. A
-- television's token is one of Session, good only while Device's row stands.
--
-- How the code is modelled. A struct is a record and a method is a function from the state to the new
-- state and its result; a section under a mutex is one such function, and where the code releases the
-- lock in between (a timer that waits for it, a read of a file, a write of rows) it is several, with
-- the interleavings as lists of events. Go's maps are association lists with one entry to a key (Base.Assoc);
-- the order of `range` is the order of the list, which the theorems leave open. Maps to pointers are
-- maps to numbers into a heap where two ways lead to one object (Registry, FdCache). Times, sizes and
-- counts are natural numbers, and a difference that the code tests against a bound of at least 0 may
-- stop at 0. The clock is an argument. The 64-bit clocks and counters are taken not to wrap, save round
-- robin's, which wraps in the model.
-- Fuel: an eviction loop runs on as much fuel as there are resident entries; each round deletes
-- one, and the theorems on what is left hold of the whole loop. The bencode decoder runs on twice the
-- input's length and one, the comment loop of the SQL console on the text's length and one: each
-- call of either drops a byte, or is followed by one that does. Texts that the code walks through are lists of bytes (Base.Bytes, Base.Decimal).
-- A table of MySQL is a list of rows, a query is a function on it, and what a unique index refuses is
-- written out; transactions, the pages and the other tables are not modelled.
-- What is an argument: random tokens, the digest of a control token, the answers of the streamers, the
-- piece-completion store of the torrent library (PrefixCache.Storage states what is relied on), whether
-- opening a file or writing rows succeeds, HMAC, base64, SHA-1, what Unicode says of letters and
-- spaces, and how a column's collation compares texts.
-- Not modelled: the other HTTP handlers, templates and JSON, the other MySQL stores, the torrent engine, transcoding,
-- files and processes, and the clients of outside services, which only call libraries or shape their data.
-- Base holds what every file shares: Boolean tests, case splits, maps, sums over lists.
pub mod Base
pub mod WatchTracker
pub mod PrefixCache
pub mod FdCache
pub mod RateLimiter
pub mod WatchLog
pub mod Enrollment
pub mod Reaper
pub mod Registry
pub mod Session
pub mod Device
pub mod Bencode
pub mod Ledger
pub mod Gate
pub mod SqlConsole
pub mod Router
pub mod Billing
