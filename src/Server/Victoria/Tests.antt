-- ===== src/Server/Victoria/Tests.antt =====
-- A payload of values printed as dots, and pushes with a post that fails.
use hakuraku.Prelude.{
  ℕ, ◌≡◌, refl, true, List, [], ◌∷◌, ◌++◌, Option, none, some, Text, codes, lookup, pos, split_on,
  trim, trim_start, is_whitespace, text_eq,
}
use mathlib.Core.Option
use hakuraku.Server.State.{stats_item}
use hakuraku.Server.Toys.{snapshot}
use hakuraku.Server.Grpc.{StatsSerializable, serializable}
use hakuraku.Server.Victoria.Export.{counts, floats, IsDerived, lines_of, push_item-exports}
use hakuraku.Server.Victoria.{
  Value, push_item, no_pushes, vm_url, object_lines, serialize_to_vm_jsonl, metric_line,
}
use hakuraku.Server.Victoria.Lines.{IsUnbroken}

-- A value is its entries; a number has one.
abbrev Entries : Type 0
Entries = List (Text × ℕ)

abbrev first_number : Entries → Option ℕ
first_number [] = none
first_number ((k, n) ∷ es) = some n

abbrev dots : Entries → Text
dots [] = []
dots (e ∷ es) = b'.' ∷ dots es

abbrev together : List (Text × Entries) → Entries
together [] = []
together ((k, x) ∷ xs) = x ++ together xs

abbrev flattened : List Entries → Entries
flattened [] = []
flattened (x ∷ xs) = x ++ flattened xs

abbrev dotted : Value Entries Entries ℕ
dotted = record {
  as_object = some;
  get = λ o key. Option.map (λ n. (key, n) ∷ []) (lookup key o);
  as_f64 = first_number;
  as_u64 = first_number;
  from_u64 = λ n. n;
  object = together;
  array = flattened;
  string = λ t. (t, 0) ∷ [];
  number = λ n. ([], n) ∷ [];
  integer = λ i. ([], 1) ∷ [];
  to_string = dots;
}

one_line : (x : Entries) → IsUnbroken b'\n' (dots x)
one_line [] = tt
one_line (e ∷ es) = (refl, one_line es)

abbrev stats : Entries
stats = (codes "uptime_seconds", 9) ∷ (codes "cpu_percent", 4) ∷ (codes "other", 1) ∷ []

-- The uptime and the load of the processor make two lines.
two_lines : serialize_to_vm_jsonl dotted (codes "a") (pos 5) stats ≡ codes "....\n....\n"
unfolding serialize_to_vm_jsonl object_lines metric_line lookup text_eq
two_lines = refl

stripped : vm_url (some (codes " http://vm:8428// ")) ≡ some (codes "http://vm:8428/api/v1/import")
unfolding vm_url trim trim_start is_whitespace
stripped = refl

-- A value with statistics as its object; a number is under a name as a count or as a float.
data Tree : Type 0 where
  number : Option ℕ → Option ℕ → Tree
  fields : StatsSerializable ℕ → Tree
  built : Tree

abbrev object_of : Tree → Option (StatsSerializable ℕ)
object_of (number c f) = none
object_of (fields s) = some s
object_of built = none

abbrev as_count : Tree → Option ℕ
as_count (number c f) = c
as_count (fields s) = none
as_count built = none

abbrev as_float : Tree → Option ℕ
as_float (number c f) = f
as_float (fields s) = none
as_float built = none

abbrev trees : Value Tree (StatsSerializable ℕ) ℕ
trees = record {
  as_object = object_of;
  get = λ s key. some (number (lookup key (counts s)) (lookup key (floats s)));
  as_f64 = as_float;
  as_u64 = as_count;
  from_u64 = λ n. n;
  object = λ es. built;
  array = λ xs. built;
  string = λ t. built;
  number = λ n. built;
  integer = λ i. built;
  to_string = λ x. b'.' ∷ [];
}

abbrev to_tree : StatsSerializable ℕ → Option Tree
to_tree s = some (fields s)

to_tree-IsDerived : IsDerived trees (λ n. true) to_tree
to_tree-IsDerived = record {
  fields = λ s value e.
      (s, cc, record { count = λ key n h. (_, refl, h); float = λ key r h. (_, refl, h) });
  unbroken = λ x. (refl, tt);
}

push_item-exports_example :
    (payload : Text) × ((push_item trees
        (some (codes "u"))
        (stats_item (codes "a") (pos 5) [] (fields (serializable (snapshot (codes "a")))))
        no_pushes).in_flight
      ≡ payload ∷ [])
    × (split_on b'\n' payload
        ≡ lines_of trees (λ n. true) (codes "a") (pos 5) (snapshot (codes "a")) ++ [] ∷ [])
push_item-exports_example =
    push_item-exports trees (λ n. true) (codes "a") (pos 5) to_tree (codes "u") []
      (snapshot (codes "a")) (fields (serializable (snapshot (codes "a")))) no_pushes 63
      to_tree-IsDerived refl refl
