-- ===== src/Scheduler/Runtime/Exclusion.antt =====
-- Two instances of the runtime on one lock, one call after another.
use Prim.Native.Nat.{◌+◌, ◌≤◌, ◌<◌}
use Prim.Native.String.{String}
use auto_coin_bot.Common.{
  ℕ, ◌≡◌, refl, Bool, true, false, some, List, [], ◌∷◌, arith, Option-cases, Bool-cases, inl, inr,
  ap,
}
use auto_coin_bot.Common.Table.{str_eq, str_eq_refl, lookup, lookup-insert_self}
use auto_coin_bot.Scheduler.Runtime
use auto_coin_bot.Scheduler.Runtime.{RuntimeLock, Locks, Instance}

-- What an instance does to the lock at a time.
pub data Act : Type 0 where
  acquire : Instance → ℕ → Act
  release : String → String → Act

pub record Event : Type 0 where
  pub act : Act
  pub at : ℕ

abbrev actor : Act → String
actor (acquire i ttl) = i.instance_id
actor (release instance_id status) = instance_id

pub perform : String → Act → ℕ → Locks → Locks
perform lock_id (acquire i ttl) now locks = (Runtime.acquire_runtime_lock lock_id i ttl now locks).0
perform lock_id (release instance_id status) now locks =
    Runtime.release_runtime_lock lock_id instance_id status now locks

pub performed : String → List Event → Locks → Locks
performed lock_id [] locks = locks
performed lock_id (e ∷ es) locks = performed lock_id es (perform lock_id e.act e.at locks)

-- Every event is another instance's, before the time `until`.
abbrev pub Others : String → ℕ → List Event → Type 0
Others instance_id until [] = Unit
Others instance_id until (e ∷ es) =
    (str_eq instance_id (actor e.act) ≡ false) × (e.at < until) × Others instance_id until es

-- A row that the instance holds until the time.
pub record Owns (row : RuntimeLock) (instance_id : String) (until : ℕ) : Type 0 where
  pub instance : row.instance_id ≡ instance_id
  running : str_eq row.status "RUNNING" ≡ true
  expires : row.expires_at ≡ until

pub taken_owned :
    (row : RuntimeLock) (i j : String) (until now : ℕ)
    → Owns row i until
    → str_eq i j ≡ false
    → now < until
    → Runtime.taken row j now ≡ true
unfolding Runtime.taken
taken_owned row i j until now o d t = rw (o.running, o.instance, d) (ground (arith, o.expires))

acquire_refused :
    (lock_id : String) (row : RuntimeLock) (i : String) (until : ℕ) (j : Instance) (ttl now : ℕ)
    (locks : Locks)
    → lookup lock_id locks ≡ some row
    → Owns row i until
    → str_eq i j.instance_id ≡ false
    → now < until
    → Runtime.acquire_runtime_lock lock_id j ttl now locks ≡ (locks, false)
unfolding Runtime.acquire_runtime_lock
acquire_refused lock_id row i until j ttl now locks e o d t =
    rw e (rw (taken_owned row i j.instance_id until now o d t))

perform_other :
    (lock_id : String) (row : RuntimeLock) (i : String) (until : ℕ) (a : Act) (now : ℕ)
    (locks : Locks)
    → lookup lock_id locks ≡ some row
    → Owns row i until
    → str_eq i (actor a) ≡ false
    → now < until
    → perform lock_id a now locks ≡ locks
unfolding perform
perform_other lock_id row i until (acquire j ttl) now locks e o d t =
    ap (λ (r : Locks × Bool). r.0) (acquire_refused lock_id row i until j ttl now locks e o d t)
perform_other lock_id row i until (release j status) now locks e o d t =
    unfold Runtime.release_runtime_lock in rw e (rw (o.instance, d))

performed-Others :
    (lock_id : String) (row : RuntimeLock) (i : String) (until : ℕ) (es : List Event)
    (locks : Locks)
    → lookup lock_id locks ≡ some row
    → Owns row i until
    → Others i until es
    → performed lock_id es locks ≡ locks
unfolding performed
performed-Others lock_id row i until [] locks e o h = refl
performed-Others lock_id row i until (x ∷ es) locks e o (d, t, h) =
    rw (perform_other lock_id row i until x.act x.at locks e o d t)
      (performed-Others lock_id row i until es locks e o h)

pub running_row-Owns :
    (i : Instance) (ttl now : ℕ) → Owns (Runtime.running_row i ttl now) i.instance_id (now + ttl)
unfolding Runtime.running_row
running_row-Owns i ttl now = record { instance = refl; running = refl; expires = refl }

acquired_row :
    (lock_id : String) (i : Instance) (ttl now : ℕ) (locks : Locks)
    → (Runtime.acquire_runtime_lock lock_id i ttl now locks).1 ≡ true
    → lookup lock_id (Runtime.acquire_runtime_lock lock_id i ttl now locks).0
      ≡ some (Runtime.running_row i ttl now)
unfolding Runtime.acquire_runtime_lock
acquired_row lock_id i ttl now locks = elim (Option-cases (lookup lock_id locks)) [
  | inl e ↦ rw e λ h. lookup-insert_self lock_id _ locks
  | inr (row, e) ↦ rw e (elim (Bool-cases (Runtime.taken row i.instance_id now)) [
    | inl k ↦ rw k λ h. cc
    | inr k ↦ rw k λ h. lookup-insert_self lock_id _ locks
  ])
]

-- Once an instance has acquired the runtime lock, no sequence of whole calls by other instances before
-- the lock expires, acquisitions and releases, changes the table, and each of their acquisitions is
-- refused. `Scheduler.Runtime.Overlap` is about calls that overlap.
pub runtime_exclusive :
    (lock_id : String) (i j : Instance) (ttl ttl' now later : ℕ) (es : List Event) (locks : Locks)
    → (Runtime.acquire_runtime_lock lock_id i ttl now locks).1 ≡ true
    → Others i.instance_id (now + ttl) es
    → str_eq i.instance_id j.instance_id ≡ false
    → later < now + ttl
    → let held = (Runtime.acquire_runtime_lock lock_id i ttl now locks).0 in
      (performed lock_id es held ≡ held)
      × (Runtime.acquire_runtime_lock lock_id j ttl' later (performed lock_id es held)
          ≡ (held, false))
runtime_exclusive lock_id i j ttl ttl' now later es locks h o d t =
    let held = (Runtime.acquire_runtime_lock lock_id i ttl now locks).0 in
    let new = Runtime.running_row i ttl now in
    let row = acquired_row lock_id i ttl now locks h in
    let own = running_row-Owns i ttl now in
    let same = performed-Others lock_id new i.instance_id (now + ttl) es held row own o in
    (
      same,
      rw same (acquire_refused lock_id new i.instance_id (now + ttl) j ttl' later held row own d t),
    )

acquire_free :
    (lock_id : String) (row : RuntimeLock) (j : Instance) (ttl now : ℕ) (locks : Locks)
    → lookup lock_id locks ≡ some row
    → Runtime.taken row j.instance_id now ≡ false
    → (Runtime.acquire_runtime_lock lock_id j ttl now locks).1 ≡ true
unfolding Runtime.acquire_runtime_lock
acquire_free lock_id row j ttl now locks e f = rw e (rw f)

-- Once the lock has expired, or its holder has released it with a status other than RUNNING, any
-- instance acquires it at once.
pub runtime_available :
    (lock_id : String) (i j : Instance) (ttl ttl' now released later : ℕ) (status : String)
    (locks : Locks)
    → (Runtime.acquire_runtime_lock lock_id i ttl now locks).1 ≡ true
    → let held = (Runtime.acquire_runtime_lock lock_id i ttl now locks).0 in
      (now + ttl ≤ later → (Runtime.acquire_runtime_lock lock_id j ttl' later held).1 ≡ true)
      × (str_eq status "RUNNING" ≡ false
          → (Runtime.acquire_runtime_lock lock_id j ttl' later
              (Runtime.release_runtime_lock lock_id i.instance_id status released held)).1
            ≡ true)
runtime_available lock_id i j ttl ttl' now released later status locks h =
    let held = (Runtime.acquire_runtime_lock lock_id i ttl now locks).0 in
    let new = Runtime.running_row i ttl now in
    let row = acquired_row lock_id i ttl now locks h in
    (
      λ t.
          acquire_free lock_id new j ttl' later held row
            (expired new (running_row-Owns i ttl now) t),
      λ s.
          acquire_free lock_id
            (record new { status = status; expires_at = released; updated_at = released }) j ttl'
            later _ (released_row new (running_row-Owns i ttl now) held row) (stopped new s),
    )
  where
    expired :
        (row : RuntimeLock)
        → Owns row i.instance_id (now + ttl)
        → now + ttl ≤ later
        → Runtime.taken row j.instance_id later ≡ false
    expired row o t = unfold Runtime.taken in ground (arith, o.expires)

    stopped :
        (row : RuntimeLock)
        → str_eq status "RUNNING" ≡ false
        → Runtime.taken
            (record row { status = status; expires_at = released; updated_at = released })
            j.instance_id
            later
          ≡ false
    stopped row s = unfold Runtime.taken in rw s

    released_row :
        (row : RuntimeLock)
        → Owns row i.instance_id (now + ttl)
        → (held : Locks) → lookup lock_id held ≡ some row
        → lookup lock_id (Runtime.release_runtime_lock lock_id i.instance_id status released held)
          ≡ some (record row { status = status; expires_at = released; updated_at = released })
    released_row row o held e =
        unfold Runtime.release_runtime_lock in
        rw e (rw (o.instance, str_eq_refl i.instance_id) (lookup-insert_self lock_id _ held))
