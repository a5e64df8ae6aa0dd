-- ===== src/Schema/Loops.antt =====
-- Transparent types that refer to one another: `typeOf` follows them without the mark of
-- `resolving`, which stops the recursion through structs and sums.
use serify.Base.{
  ℕ, zero, suc, true, false, none, some, List, ◌∷◌, ◌≡◌, refl, ap, ◌∙◌, Str, lit, str_eq, lookup,
  Bool, if◌then◌else◌,
}
use serify.Wire.{kind_of, trim_space}
use serify.Schema.{RawTypeField, RawType, Resolver, Resolve, spent, canonical}
use serify.Schema.Resolve.{type_of, type_step, named_of, first_type}

-- The name is a transparent type, whose field has a type with the property.
pub record Inlines (P : Str → Type 0) (r : Resolver) (name : Str) : Type 0 where
  pub type : RawType
  pub rf : RawTypeField
  pub others : List RawTypeField
  pub no_kind : kind_of name ≡ none
  pub no_struct : str_eq name (lit "struct") ≡ false
  pub found : lookup name r.named ≡ some type
  pub no_sum : type.is_sum ≡ false
  pub transparent : type.transparent ≡ true
  pub only_field : type.fields ≡ rf ∷ others
  pub next : P (canonical (trim_space rf.typ))

second_branch :
    {A : Type 0} (b c : Bool) (x y z : A)
    → b ≡ false
    → c ≡ true
    → (if b then x else if c then y else z) ≡ y
second_branch b c x y z h k = rw (h, k)

named_transparent :
    (type_of : Resolve) (expr : Str) (nt : RawType) (r : Resolver) (rf : RawTypeField)
    (others : List RawTypeField)
    → nt.is_sum ≡ false
    → nt.transparent ≡ true
    → nt.fields ≡ rf ∷ others
    → named_of type_of expr nt r ≡ type_of rf.typ r
unfolding named_of
named_transparent type_of expr nt r rf others s t f =
    second_branch nt.is_sum nt.transparent _ _ _ s t ∙ ap (λ fs. first_type type_of fs r) f

step-Inlines :
    (P : Str → Type 0) (type_of : Resolve) (name : Str) (r : Resolver) (i : Inlines P r name)
    → type_step type_of name r ≡ type_of i.rf.typ r
unfolding type_step
step-Inlines P type_of name r i =
    rw (i.no_kind, i.no_struct, i.found, type_step)
      (named_transparent type_of name i.type r i.rf i.others i.no_sum i.transparent i.only_field)

-- If each name of a set is a transparent type whose field's type is again a name of the set, the
-- resolution of such a name does not end: no fuel is enough.
pub type_of-cycle :
    (P : Str → Type 0) (r : Resolver)
    → ((name : Str) → P name → Inlines P r name)
    → (fuel : ℕ) (expr : Str) → P (canonical (trim_space expr))
    → type_of fuel expr r ≡ spent
unfolding type_of
type_of-cycle P r cycle zero expr p = refl
type_of-cycle P r cycle (suc fuel) expr p =
    let i = cycle (canonical (trim_space expr)) p in
    step-Inlines P (λ e s. type_of fuel e s) (canonical (trim_space expr)) r i
    ∙ type_of-cycle P r cycle fuel i.rf.typ i.next
