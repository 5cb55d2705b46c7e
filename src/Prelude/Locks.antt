-- ===== src/Prelude/Locks.antt =====
-- A `sync.RWMutex` of the Go standard library, as one goroutine meets it: a lock that is held for
-- writing is given to nobody, and one held for reading only to readers.
use universal_database_proxy.Prelude.Result.{Go, done, blocked}

pub data RwMutex : Type 0 where
  unlocked read_locked write_locked : RwMutex

-- `RLock` and `Lock`, with the mutex after them
abbrev pub r_lock : RwMutex → Go RwMutex
r_lock write_locked = blocked
r_lock unlocked = done read_locked
r_lock read_locked = done read_locked

abbrev pub lock : RwMutex → Go RwMutex
lock unlocked = done write_locked
lock read_locked = blocked
lock write_locked = blocked
