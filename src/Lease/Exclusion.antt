-- ===== src/Lease/Exclusion.antt =====
-- No two active leases overlap, and there are never more than the limit.
use my_coding_agent.Base.{
  ◌+◌, ◌≤◌, ◌≡◌, ◌≢◌, refl, String, true, false, none, some, List, [], ◌∷◌, arith, length, leb,
  eq_iff, inl, inr, Bool-cases,
}
use my_coding_agent.Base.Dict
use my_coding_agent.Base.Dict.{Dict, HasDistinctKeys}
use my_coding_agent.Lease.Overlap.{Under, overlaps_iff, overlaps_symm}
use my_coding_agent.Lease.{
  FilePath, WorkspaceLease, LeaseManager, path_eq, overlaps, overlaps_any, leased, acquire, release,
}

-- No two roots of the table overlap.
abbrev pub Apart : Dict FilePath → Type 0
Apart [] = Unit
Apart (l ∷ ls) = (overlaps_any l.1 ls ≡ false) × Apart ls

pub record IsExclusive (m : LeaseManager) : Type 0 where
  pub capacity : length m.leases ≤ m.max_active_turns
  pub apart : Apart m.leases
  pub keys : HasDistinctKeys m.leases

overlaps_any-insert :
    (k : String) (p q : FilePath) (d : Dict FilePath)
    → overlaps_any q d ≡ false
    → overlaps q p ≡ false
    → overlaps_any q (Dict.insert k p d) ≡ false
unfolding Dict.insert
overlaps_any-insert k p q [] h o = rw o
overlaps_any-insert k p q ((j, w) ∷ d) h o = ground (arith, overlaps_any-insert k p q d)

overlaps_any-remove :
    (k : String) (q : FilePath) (d : Dict FilePath)
    → overlaps_any q d ≡ false
    → overlaps_any q (Dict.remove k d) ≡ false
unfolding Dict.remove
overlaps_any-remove k q [] h = h
overlaps_any-remove k q ((j, w) ∷ d) h = ground (arith, overlaps_any-remove k q d)

Apart-insert :
    (k : String) (p : FilePath) (d : Dict FilePath)
    → Apart d
    → overlaps_any p d ≡ false
    → Apart (Dict.insert k p d)
unfolding Dict.insert
Apart-insert k p [] a o = (refl, tt)
Apart-insert k p ((j, w) ∷ d) a o =
    ground (arith, Apart-insert k p d a.1, overlaps_any-insert k p w d, overlaps_symm w p)

Apart-remove : (k : String) (d : Dict FilePath) → Apart d → Apart (Dict.remove k d)
unfolding Dict.remove
Apart-remove k [] a = a
Apart-remove k ((j, w) ∷ d) a = ground (arith, Apart-remove k d a.1, overlaps_any-remove k w d)

length-insert :
    (k : String) (p : FilePath) (d : Dict FilePath) → length (Dict.insert k p d) ≤ length d + 1
unfolding Dict.insert
length-insert k p [] = omega arith
length-insert k p ((j, w) ∷ d) = ground (arith, length-insert k p d)

length-remove : (k : String) (d : Dict FilePath) → length (Dict.remove k d) ≤ length d
unfolding Dict.remove
length-remove k [] = omega arith
length-remove k ((j, w) ∷ d) = ground (arith, length-remove k d)

acquire-IsExclusive :
    (id : String) (p : FilePath) (m : LeaseManager) → IsExclusive m → IsExclusive (acquire id p m).0
unfolding acquire
acquire-IsExclusive id p m h = elim (Bool-cases (leb m.max_active_turns (length m.leases))) [
  | inl full ↦ rw (full, acquire) h
  | inr room ↦ elim (Bool-cases (overlaps_any p m.leases)) [
    | inl taken ↦ rw (room, taken, acquire) h
    | inr free ↦
        rw (room, free, acquire)
          (record {
            capacity = ground (arith, length-insert id p m.leases);
            apart = Apart-insert id p m.leases h.apart free;
            keys = Dict.HasDistinctKeys-insert id p m.leases h.keys;
          })
  ]
]

release-IsExclusive :
    (l : WorkspaceLease) (m : LeaseManager) → IsExclusive m → IsExclusive (release l m)
unfolding release
release-IsExclusive l m h = ground (
  arith,
  length-remove l.lease_id m.leases,
  Apart-remove l.lease_id m.leases h.apart,
  Dict.HasDistinctKeys-remove l.lease_id m.leases h.keys,
)

-- A call on the manager, with the id that `uuid4` gives it.
pub data Call : Type 0 where
  acquire_call : String → FilePath → Call
  release_call : WorkspaceLease → Call

unfoldable pub calls : List Call → LeaseManager → LeaseManager
calls [] m = m
calls (acquire_call id p ∷ cs) m = calls cs (acquire id p m).0
calls (release_call l ∷ cs) m = calls cs (release l m)

-- Whatever is acquired and released, in whatever order, no two active roots overlap, and they are
-- never more than the limit.
pub calls-IsExclusive :
    (cs : List Call) (m : LeaseManager) → IsExclusive m → IsExclusive (calls cs m)
unfolding calls
calls-IsExclusive [] m h = h
calls-IsExclusive (acquire_call id p ∷ cs) m h =
    calls-IsExclusive cs (acquire id p m).0 (acquire-IsExclusive id p m h)
calls-IsExclusive (release_call l ∷ cs) m h =
    calls-IsExclusive cs (release l m) (release-IsExclusive l m h)

lookup-overlaps_any :
    (i : String) (p q : FilePath) (d : Dict FilePath)
    → Dict.lookup i d ≡ some q
    → overlaps_any p d ≡ false
    → overlaps p q ≡ false
unfolding Dict.lookup
lookup-overlaps_any i p q [] e o = cc
lookup-overlaps_any i p q ((j, w) ∷ d) e o = ground (arith, lookup-overlaps_any i p q d)

lookup-Apart :
    (i j : String) (p q : FilePath) (d : Dict FilePath)
    → Apart d
    → Dict.lookup i d ≡ some p
    → Dict.lookup j d ≡ some q
    → i ≢ j
    → overlaps p q ≡ false
unfolding Dict.lookup
lookup-Apart i j p q [] a e f n = cc
lookup-Apart i j p q ((k, w) ∷ d) a e f n = ground (
  arith,
  eq_iff k i,
  eq_iff k j,
  lookup-overlaps_any i w p d,
  lookup-overlaps_any j w q d,
  lookup-Apart i j p q d a.1,
  overlaps_symm p q,
)

-- In an exclusive manager no path lies under the roots of two different leases.
pub leases_disjoint :
    (m : LeaseManager) (i j : String) (p q t : FilePath)
    → IsExclusive m
    → Dict.lookup i m.leases ≡ some p
    → Dict.lookup j m.leases ≡ some q
    → i ≢ j
    → Under p t
    → ¬ Under q t
leases_disjoint m i j p q t h e f n u v =
    cc (lookup-Apart i j p q m.leases h.apart e f n, (overlaps_iff p q).1 (t, u, v))

path_eq_refl : (p : FilePath) → path_eq p p ≡ true
unfolding path_eq
path_eq_refl [] = refl
path_eq_refl (x ∷ p) = ground (arith, eq_iff x x, path_eq_refl p)

-- Releasing a lease that was acquired under a new id gives the manager back as it was.
pub release-acquire :
    (id : String) (p : FilePath) (l : WorkspaceLease) (m : LeaseManager)
    → Dict.lookup id m.leases ≡ none
    → (acquire id p m).1 ≡ leased l
    → release l (acquire id p m).0 ≡ m
unfolding release acquire
release-acquire id p l m fresh got = ground (
  arith,
  path_eq_refl p,
  eq_iff id id,
  Dict.lookup-insert id id p m.leases,
  Dict.remove-insert id p m.leases,
)
