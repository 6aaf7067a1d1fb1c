-- ===== src/Prelude/Values.antt =====
-- What `json.loads` and `yaml.safe_load` return. A float is kept by its spelling.
use Prim.Native.String.{String}
use mathlib.Core.Path.{◌≡◌, refl, ◌∙◌}
use mathlib.Core.Bool.{Bool, false}
use mathlib.Core.Option.{Option, none, some}
use mathlib.Core.List.{List, [], ◌∷◌}
use native.Mathlib.Omega.{arith}
use text.Mathlib.Text.{◌==◌}
use text.Mathlib.TextEquality.{eq_iff}
use harnessie.Prelude.Tests.{if◌then◌else◌}
use harnessie.Prelude.Texts.{mem}
use harnessie.Prelude.Int.{ℤ}

mutual
  pub data Value : Type 0 where
    str float : String → Value
    int : ℤ → Value
    boolean : Bool → Value
    seq_of : Elements → Value
    obj : Fields → Value
    null : Value

  pub data Elements : Type 0 where
    done : Elements
    element : Value → Elements → Elements

  pub data Fields : Type 0 where
    end : Fields
    field : (key : String) (value : Value) (others : Fields) → Fields

-- The items of a JSON array or a YAML sequence.
abbrev pub to_list : Elements → List Value
to_list done = []
to_list (element v more) = v ∷ to_list more

-- `d.get(k)`
abbrev pub get : String → Fields → Option Value
get k end = none
get k (field j v d) = if j == k then some v else get k d

-- `d[k] = v`
abbrev pub put : String → Value → Fields → Fields
put k v end = field k v end
put k v (field j w d) = if j == k then field k v d else field j w (put k v d)

-- `{**d, **e}`
abbrev pub overlay : Fields → Fields → Fields
overlay d end = d
overlay d (field k v e) = overlay (put k v d) e

abbrev pub keys : Fields → List String
keys end = []
keys (field k v d) = k ∷ keys d

pub get-put :
    (k j : String) (v : Value) (d : Fields)
    → get j (put k v d) ≡ (if k == j then some v else get j d)
get-put k j v end = refl
get-put k j v (field i w d) = ground (arith, eq_iff k j, eq_iff i k, eq_iff i j, get-put k j v d)

-- What the second mapping does not name is the first's.
pub get-overlay :
    (j : String) (d e : Fields) → mem j (keys e) ≡ false → get j (overlay d e) ≡ get j d
get-overlay j d end h = refl
get-overlay j d (field k v e) h =
    get-overlay j (put k v d) e (ground arith) ∙ ground (arith, get-put k j v d)
