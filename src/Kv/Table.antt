-- ===== src/Kv/Table.antt =====
-- A store as a list of entries in the order of their keys, which satisfies the laws of the interface.
use vote_sdk.Base.{
  ◌≡◌, refl, sym, ap, ◌∙◌, inl, inr, true, not, Option, none, some, List, [], ◌∷◌, Bytes, bytes_eq,
  bytes_eq_iff, if◌then◌else◌, keep, In, In-keep, keep-In, Bool-cases, arith,
}
use vote_sdk.Keys.Range.{in_range, lex_lt}
use vote_sdk.Types.{Value}
use vote_sdk.Kv.{KvStore}

abbrev pub Table : Type 0
Table = List (Bytes × Value)

unfoldable pub lookup : Table → Bytes → Option Value
lookup [] k = none
lookup ((j, w) ∷ rest) k = if bytes_eq j k then some w else lookup rest k

unfoldable pub insert : Table → Bytes → Value → Table
insert [] k v = (k, v) ∷ []
insert ((j, w) ∷ rest) k v =
    if bytes_eq j k
    then (k, v) ∷ rest
    else if lex_lt k j
    then (k, v) ∷ (j, w) ∷ rest
    else (j, w) ∷ insert rest k v

unfoldable pub remove : Table → Bytes → Table
remove t k = keep (λ e. not (bytes_eq e.0 k)) t

-- The entries that `lookup` finds: each key at its first place.
unfoldable pub visible : Table → Table
visible [] = []
visible ((k, v) ∷ rest) = (k, v) ∷ keep (λ e. not (bytes_eq k e.0)) (visible rest)

unfoldable pub scan : Table → Bytes → Option Bytes → Table
unfolding visible
scan t start end = keep (λ e. in_range start end e.0) (visible t)

bytes_eq_same : (a b k : Bytes) → bytes_eq a b ≡ true → bytes_eq a k ≡ bytes_eq b k
bytes_eq_same a b k h = ap (λ x. bytes_eq x k) ((bytes_eq_iff a b).0 h)

bytes_eq_common : (i j k : Bytes) → bytes_eq k j ≡ true → bytes_eq i j ≡ true → bytes_eq i k ≡ true
bytes_eq_common i j k h e =
    (bytes_eq_iff i k).1 ((bytes_eq_iff i j).0 e ∙ sym ((bytes_eq_iff k j).0 h))

pub lookup-insert :
    (t : Table) (k j : Bytes) (v : Value)
    → lookup (insert t k v) j ≡ (if bytes_eq k j then some v else lookup t j)
unfolding lookup insert
lookup-insert [] k j v = refl
lookup-insert ((i, w) ∷ rest) k j v =
    ground (arith, bytes_eq_same i k j, bytes_eq_common i j k, lookup-insert rest k j v)

pub lookup-remove :
    (t : Table) (k j : Bytes) → lookup (remove t k) j ≡ (if bytes_eq k j then none else lookup t j)
unfolding lookup remove
lookup-remove [] k j = ground arith
lookup-remove ((i, w) ∷ rest) k j =
    ground (arith, bytes_eq_same i k j, bytes_eq_common i j k, lookup-remove rest k j)

visible_sound : (t : Table) (k : Bytes) (v : Value) → In (k, v) (visible t) → lookup t k ≡ some v
unfolding lookup visible
visible_sound [] k v h = absurd h
visible_sound ((j, w) ∷ rest) k v (inl e) =
    let q : bytes_eq j k ≡ true = (bytes_eq_iff j k).1 (sym (ap (λ x. x.0) e)) in
    rw q (ap (λ x. some (x.1)) (sym e))
visible_sound ((j, w) ∷ rest) k v (inr m) =
    let r = In-keep (λ e. not (bytes_eq j e.0)) (visible rest) (k, v) m in
    let ih = visible_sound rest k v r.0 in ground (arith, r.1, ih)

visible_complete : (t : Table) (k : Bytes) (v : Value) → lookup t k ≡ some v → In (k, v) (visible t)
unfolding lookup visible
visible_complete [] k v h = cc
visible_complete ((j, w) ∷ rest) k v h = elim (Bool-cases (bytes_eq j k)) [
  | inl e ↦
      let s : ◌≡◌ {A = Option Value} (some w) (some v) = rw e at h in
      inl (cc (s, (bytes_eq_iff j k).0 e))
  | inr e ↦ inr (
      keep-In (λ x. not (bytes_eq j x.0)) (visible rest) (k, v)
        (visible_complete rest k v (rw e at h)) (rw e refl))
]

pub scan_sound :
    (s : Table) (start : Bytes) (end : Option Bytes) (k : Bytes) (v : Value)
    → In (k, v) (scan s start end)
    → (lookup s k ≡ some v) × (in_range start end k ≡ true)
unfolding scan
scan_sound s start end k v h =
    let r = In-keep (λ e. in_range start end e.0) (visible s) (k, v) h in
    (visible_sound s k v r.0, r.1)

pub scan_complete :
    (s : Table) (start : Bytes) (end : Option Bytes) (k : Bytes) (v : Value)
    → lookup s k ≡ some v
    → in_range start end k ≡ true
    → In (k, v) (scan s start end)
unfolding scan
scan_complete s start end k v h r =
    keep-In (λ e. in_range start end e.0) (visible s) (k, v) (visible_complete s k v h) r

instance unfoldable pub table : KvStore Table
unfolding lookup insert remove scan
table = record {
  get = lookup;
  set = insert;
  delete = remove;
  iterator = scan;
  get-set = lookup-insert;
  get-delete = lookup-remove;
  iterator_sound = scan_sound;
  iterator_complete = scan_complete;
}
