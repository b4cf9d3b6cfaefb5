-- ===== src/Scheduler/Lock.antt =====
-- src/scheduler/taskStore.ts, `tryAcquireLock`, `readLock` and `releaseLock`, one file operation at
-- a time, with any number of processes: a file is created and later written, read and later unlinked.
--
-- A process is named by its `instanceId`. Within one process `mutationTail` runs one mutation after
-- the other, so a process is in one phase at a time.
pub mod Exclusion
pub mod Takeover
use alfred_ai.Base.{
  ℕ, zero, suc, ◌+◌, String, Bool, true, false, not, ◌&&◌, ◌||◌, Option, none, some, List, [], ◌∷◌,
  leb, ◌==◌, if◌then◌else◌, str_eq, units,
}
use alfred_ai.Scheduler.Model.{lock_ttl_ms}

pub record LockRecord : Type 0 where
  pub owner_id : String
  pub pid : ℕ
  pub created_at_ms : ℕ
  pub expires_at_ms : ℕ

-- `isLockRecord`, for a value whose fields have the right types.
abbrev pub is_lock_record : LockRecord → Bool
is_lock_record r = leb 1 (units r.owner_id) && leb r.created_at_ms r.expires_at_ms

-- The lock file: absent; with text that is no lock record; created by a process that is about to write
-- this record into it, and empty; or with a record.
pub data LockFile : Type 0 where
  absent garbled : LockFile
  created : LockRecord → LockFile
  held : LockRecord → LockFile

-- `readLock`
unfoldable pub read_lock : LockFile → Option LockRecord
read_lock absent = none
read_lock garbled = none
read_lock (created r) = none
read_lock (held r) = if is_lock_record r then some r else none

-- Where a process stands: not in `withLock`; after `open` found a file; after `readLock` found a
-- stale record, before the `unlink`; after it created the file, before it has written its record; in
-- its operation; or after `releaseLock` found its record in the file, before the `unlink`.
pub data Phase : Type 0 where
  waiting found_file found_stale : Phase
  writing operating releasing : LockRecord → Phase

pub record LockState : Type 0 where
  pub file : LockFile
  pub phase : String → Phase

pub data Move : Type 0 where
  opens : (process : String) (pid now : ℕ) → Move
  reads : (process : String) (now : ℕ) → Move
  writes : (process : String) → Move
  unlinks : (process : String) → Move
  compares : (process : String) → Move
  releases : (process : String) → Move

unfoldable pub set_phase : String → Phase → (String → Phase) → String → Phase
set_phase w p f v = if str_eq w v then p else f v

unfoldable pub new_lock : String → ℕ → ℕ → LockRecord
new_lock process pid now = record {
  owner_id = process;
  pid = pid;
  created_at_ms = now;
  expires_at_ms = now + lock_ttl_ms;
}

-- `open(lockPath, "wx")`
unfoldable pub try_open : LockState → LockFile → Phase → String → ℕ → ℕ → LockState
unfolding new_lock
try_open s absent waiting w pid now = record {
  file = created (new_lock w pid now);
  phase = set_phase w (writing (new_lock w pid now)) s.phase;
}
try_open s garbled waiting w pid now = record s { phase = set_phase w found_file s.phase }
try_open s (created r) waiting w pid now = record s { phase = set_phase w found_file s.phase }
try_open s (held r) waiting w pid now = record s { phase = set_phase w found_file s.phase }
try_open s f found_file w pid now = s
try_open s f found_stale w pid now = s
try_open s f (writing r) w pid now = s
try_open s f (operating r) w pid now = s
try_open s f (releasing r) w pid now = s

-- The comparison of `releaseLock`.
abbrev pub is_own : Option LockRecord → LockRecord → Bool
is_own none r = false
is_own (some c) r =
    str_eq c.owner_id r.owner_id && (c.pid == r.pid && c.created_at_ms == r.created_at_ms)

-- The write goes to the file that the process created. If another is in its place by now, that one
-- stays as it is.
abbrev pub written_file : LockFile → LockRecord → LockFile
written_file absent r = absent
written_file garbled r = garbled
written_file (created c) r = if is_own (some c) r then held r else created c
written_file (held c) r = held c

unfoldable pub try_write : LockState → Phase → String → LockState
try_write s (writing r) w = record {
  file = written_file s.file r;
  phase = set_phase w (operating r) s.phase;
}
try_write s waiting w = s
try_write s found_file w = s
try_write s found_stale w = s
try_write s (operating r) w = s
try_write s (releasing r) w = s

abbrev pub is_stale : Option LockRecord → ℕ → Bool
is_stale none now = false
is_stale (some r) now = leb r.expires_at_ms now

unfoldable pub try_read : LockState → Phase → String → ℕ → LockState
unfolding read_lock
try_read s found_file w now = record s {
  phase = set_phase w (if is_stale (read_lock s.file) now then found_stale else waiting) s.phase;
}
try_read s waiting w now = s
try_read s found_stale w now = s
try_read s (writing r) w now = s
try_read s (releasing r) w now = s
try_read s (operating r) w now = s

unfoldable pub try_unlink : LockState → Phase → String → LockState
try_unlink s found_stale w = record { file = absent; phase = set_phase w waiting s.phase }
try_unlink s waiting w = s
try_unlink s found_file w = s
try_unlink s (writing r) w = s
try_unlink s (releasing r) w = s
try_unlink s (operating r) w = s

-- The read of `releaseLock` and its comparison.
unfoldable pub try_compare : LockState → Phase → String → LockState
unfolding read_lock
try_compare s (operating r) w = record s {
  phase = set_phase w (if is_own (read_lock s.file) r then releasing r else waiting) s.phase;
}
try_compare s waiting w = s
try_compare s found_file w = s
try_compare s found_stale w = s
try_compare s (writing r) w = s
try_compare s (releasing r) w = s

-- The `unlink` of `releaseLock`.
unfoldable pub try_release : LockState → Phase → String → LockState
try_release s (releasing r) w = record { file = absent; phase = set_phase w waiting s.phase }
try_release s waiting w = s
try_release s found_file w = s
try_release s found_stale w = s
try_release s (writing r) w = s
try_release s (operating r) w = s

unfoldable pub move : LockState → Move → LockState
move s (opens w pid now) = try_open s s.file (s.phase w) w pid now
move s (reads w now) = try_read s (s.phase w) w now
move s (writes w) = try_write s (s.phase w) w
move s (compares w) = try_compare s (s.phase w) w
move s (unlinks w) = try_unlink s (s.phase w) w
move s (releases w) = try_release s (s.phase w) w

unfoldable pub moves : LockState → List Move → LockState
moves s [] = s
moves s (m ∷ ms) = moves (move s m) ms
