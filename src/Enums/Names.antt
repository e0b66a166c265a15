-- ===== src/Enums/Names.antt =====
-- The name tables of okx_enums.h tell their values apart.
use okx_cpp_api.Prelude.{
  inr, bytes_eq_iff, inl, Bool-cases, Bytes, bytes_eq, ◌≡◌, refl, sym, ap, ◌∙◌, Option, none, some,
  if◌then◌else◌, List, [], ◌∷◌,
}
use okx_cpp_api.Enums.{
  EnumText, BarSize, _1m, _3m, _5m, _15m, _30m, _1H, _2H, _4H, _6H, _12H, _1D, _2D, _3D, _1W, _1M,
  _3M, PositionSide, long, short, net, bar_size_name, position_side_name,
}
use mathlib.Core.Option.{some-injective}

-- The first value of a list that has the name.
unfoldable pub find_name : {E : Type 0} → (E → Bytes) → List E → Bytes → Option E
find_name name [] s = none
find_name name (e ∷ es) s = if bytes_eq (name e) s then some e else find_name name es s

pub name-find_name :
    {E : Type 0} (name : E → Bytes) (es : List E) (s : Bytes) (e : E)
    → find_name name es s ≡ some e
    → name e ≡ s
unfolding find_name
name-find_name name [] s e h = cc
name-find_name name (d ∷ es) s e h = elim (Bool-cases (bytes_eq (name d) s)) [
  | inl y ↦
      let same : some d ≡ some e = rw y at h in
      let q : d ≡ e = cc in rw (sym q) ((bytes_eq_iff (name d) s).0 y)
  | inr n ↦ name-find_name name es s e (rw n at h)
]

-- The texts of an enumeration whose values are listed.
abbrev pub named :
    {E : Type 0} (name : E → Bytes) (es : List E)
    → ((e : E) → find_name name es (name e) ≡ some e)
    → EnumText E
named name es found = record {
  enum_name = name;
  enum_cast = find_name name es;
  cast-name = found;
  name_of_cast = name-find_name name es;
}

abbrev pub bar_sizes : List BarSize
bar_sizes =
    _1m ∷ _3m ∷ _5m ∷ _15m ∷ _30m ∷ _1H ∷ _2H ∷ _4H ∷ _6H ∷ _12H ∷ _1D ∷ _2D ∷ _3D ∷ _1W ∷ _1M ∷ _3M
    ∷ []

abbrev pub position_sides : List PositionSide
position_sides = long ∷ short ∷ net ∷ []

-- A search of all bar sizes for the name of one finds that one: the table is a code.
pub find_name-bar_size_name :
    (b : BarSize) → find_name bar_size_name bar_sizes (bar_size_name b) ≡ some b
unfolding find_name bar_size_name
find_name-bar_size_name _1m = refl
find_name-bar_size_name _ = refl

pub find_name-position_side_name :
    (p : PositionSide) → find_name position_side_name position_sides (position_side_name p) ≡ some p
unfolding find_name position_side_name
find_name-position_side_name long = refl
find_name-position_side_name _ = refl

-- Two bar sizes with one API name are one bar size, and two position sides with one API name are
-- one position side.
pub names-injective :
    ((a b : BarSize) → bar_size_name a ≡ bar_size_name b → a ≡ b)
    × ((p q : PositionSide) → position_side_name p ≡ position_side_name q → p ≡ q)
names-injective = (
  λ a b h. some-injective _ _ (
      sym (find_name-bar_size_name a)
      ∙ (ap (find_name bar_size_name bar_sizes) h ∙ find_name-bar_size_name b)),
  λ p q h. some-injective _ _ (
      sym (find_name-position_side_name p)
      ∙ (ap (find_name position_side_name position_sides) h ∙ find_name-position_side_name q)),
)
