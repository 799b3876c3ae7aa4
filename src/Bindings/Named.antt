-- ===== src/Bindings/Named.antt =====
-- What `rs_type_kind` of lib.rs promises of the types that it builds from a name.
use crubit4rust.Base.{
  if◌then◌else◌, Bool-cases, Option-cases, nat_eq, string_eq, Result, err, ok, ◌>>=◌, >>=-eq-ok,
  ok-injective, int_eq, ℕ, String, ◌≡◌, refl, ap, ◌∙◌, subst, inl, inr, Bool, true, false, Option,
  none, some, List, [], ◌∷◌, arith,
}
use crubit4rust.Features.{FlagSets}
use crubit4rust.Ir.{RsTypes, rs_type, no_rs_types, more_rs_types, LifetimeId, ItemId}
use crubit4rust.RsSnippet.{
  Mutability, const_, mut_, Lifetime, PrimitiveType, RsTypeKind, pointer, reference,
  rvalue_reference, func_ptr, primitive, nullable, other_type, kinds_of, collected, is_bridge_type,
  is_c_abi_compatible_by_value, from_str,
}
use crubit4rust.Bindings.{
  Stop, Generator, or_error, bail, split_last, all_c_abi_compatible, strip_prefix, get_type_args,
  get_pointee, get_type_lifetime, pointer_to, reference_to, only_arg, assert_static, func_ptr_of,
  primitive_of, other_named, named_type, rs_type_kind,
}

-- A pointer and a reference are to no bridge type, and a function pointer has only parts that the
-- C ABI passes by value.
unfoldable pub Sound : RsTypeKind → Type 0
unfolding is_bridge_type is_c_abi_compatible_by_value all_c_abi_compatible kinds_of
Sound (pointer t _) = is_bridge_type t ≡ false
Sound (reference t _ _) = is_bridge_type t ≡ false
Sound (rvalue_reference t _ _) = is_bridge_type t ≡ false
Sound (func_ptr _ t ts) =
    (is_c_abi_compatible_by_value t ≡ true) × (all_c_abi_compatible (kinds_of ts) ≡ true)
Sound _ = Unit

-- Every type that the computation yields is sound.
YieldsSound : Result Stop RsTypeKind → Type 0
YieldsSound r = (t : RsTypeKind) → r ≡ ok t → Sound t

if-YieldsSound :
    (b : Bool) (x y : Result Stop RsTypeKind)
    → YieldsSound x
    → YieldsSound y
    → YieldsSound (if b then x else y)
if-YieldsSound true x y hx hy = hx
if-YieldsSound false x y hx hy = hy

Option-YieldsSound :
    {A : Type 0} (o : Option A) (x : Result Stop RsTypeKind) (y : A → Result Stop RsTypeKind)
    → YieldsSound x
    → ((a : A) → YieldsSound (y a))
    → YieldsSound (elim o [ none ↦ x | some a ↦ y a ])
Option-YieldsSound none x y hx hy = hx
Option-YieldsSound (some a) x y hx hy = hy a

ok-YieldsSound : (t : RsTypeKind) → Sound t → YieldsSound (ok t)
unfolding YieldsSound
ok-YieldsSound t s u h = subst Sound (ok-injective h) s

err-YieldsSound : (stop : Stop) → YieldsSound (err stop)
unfolding YieldsSound
err-YieldsSound stop t h = absurd (ground arith)

>>=-YieldsSound :
    {A : Type 0} (r : Result Stop A) (next : A → Result Stop RsTypeKind)
    → ((a : A) → r ≡ ok a → YieldsSound (next a))
    → YieldsSound (r >>= next)
unfolding YieldsSound
>>=-YieldsSound r next n t h = let (a, e, k) = >>=-eq-ok r next h in n a e t k

kinds_of-collected : (ts : List RsTypeKind) → kinds_of (collected ts) ≡ ts
unfolding kinds_of collected
kinds_of-collected [] = refl
kinds_of-collected (t ∷ ts) = ap (λ us. t ∷ us) (kinds_of-collected ts)

split_last-all_c_abi_compatible :
    (ts init : List RsTypeKind) (last : RsTypeKind)
    → split_last ts ≡ some (init, last)
    → all_c_abi_compatible ts ≡ true
    → (is_c_abi_compatible_by_value last ≡ true) × (all_c_abi_compatible init ≡ true)
unfolding split_last all_c_abi_compatible
split_last-all_c_abi_compatible [] init last h a = absurd (ground arith)
split_last-all_c_abi_compatible (t ∷ ts) init last h a = elim (Option-cases (split_last ts)) [
  | inl e ↦
      let same : ◌≡◌ {A = List RsTypeKind × RsTypeKind} ([], t) (init, last) = ground arith in
      subst (λ q. (is_c_abi_compatible_by_value q.1 ≡ true) × (all_c_abi_compatible q.0 ≡ true))
        same (ground arith, refl)
  | inr ((i, l), e) ↦
      let parts = split_last-all_c_abi_compatible ts i l e (ground arith) in
      let same : ◌≡◌ {A = List RsTypeKind × RsTypeKind} (t ∷ i, l) (init, last) = ground arith in
      subst (λ q. (is_c_abi_compatible_by_value q.1 ≡ true) × (all_c_abi_compatible q.0 ≡ true))
        same (parts.0, ground (arith, parts.1))
]

pointer-Sound : (t : RsTypeKind) (m : Mutability) → is_bridge_type t ≡ false → Sound (pointer t m)
unfolding Sound
pointer-Sound t m h = h

reference-Sound :
    (t : RsTypeKind) (m : Mutability) (l : Lifetime)
    → is_bridge_type t ≡ false
    → Sound (reference t m l) × Sound (rvalue_reference t m l)
unfolding Sound
reference-Sound t m l h = (h, h)

module _ (flags : FlagSets) (db : Generator flags) where
  get_pointee-is_bridge_type :
      (type_args : RsTypes) (t : RsTypeKind)
      → get_pointee flags db type_args ≡ ok t
      → is_bridge_type t ≡ false
  unfolding get_pointee
  get_pointee-is_bridge_type no_rs_types t h = absurd (ground arith)
  get_pointee-is_bridge_type (more_rs_types ty (more_rs_types _ _)) t h = absurd (ground arith)
  get_pointee-is_bridge_type (more_rs_types ty no_rs_types) t h =
      let (p, e, k) =
        >>=-eq-ok (or_error (db.rs_type_kind ty))
          (λ pointee.
            if is_bridge_type pointee
            then bail "Bridging types are not supported as pointee/referent types."
            else ok pointee)
          h in
      elim (Bool-cases (is_bridge_type p)) [
        | inl b ↦ absurd (ground arith)
        | inr b ↦ let same : p ≡ t = ground arith in subst (λ u. is_bridge_type u ≡ false) same b
      ]

  pointer_to-YieldsSound :
      (m : Mutability) (type_args : RsTypes) → YieldsSound (pointer_to flags db m type_args)
  unfolding pointer_to
  pointer_to-YieldsSound m type_args =
      >>=-YieldsSound (get_pointee flags db type_args) (λ p. ok (pointer p m))
        (λ p e.
          ok-YieldsSound (pointer p m)
            (pointer-Sound p m (get_pointee-is_bridge_type type_args p e)))

  reference_to-YieldsSound :
      (m : Mutability) (lifetime_args : List LifetimeId) (type_args : RsTypes)
      → YieldsSound (reference_to flags db reference m lifetime_args type_args)
        × YieldsSound (reference_to flags db rvalue_reference m lifetime_args type_args)
  unfolding reference_to
  reference_to-YieldsSound m lifetime_args type_args = (
    >>=-YieldsSound (get_pointee flags db type_args) _ (λ p e.
        >>=-YieldsSound (get_type_lifetime flags db lifetime_args) (λ l. ok (reference p m l))
          (λ l f.
            ok-YieldsSound (reference p m l)
              (reference-Sound p m l (get_pointee-is_bridge_type type_args p e)).0)),
    >>=-YieldsSound (get_pointee flags db type_args) _ (λ p e.
        >>=-YieldsSound (get_type_lifetime flags db lifetime_args)
          (λ l. ok (rvalue_reference p m l))
          (λ l f.
            ok-YieldsSound (rvalue_reference p m l)
              (reference-Sound p m l (get_pointee-is_bridge_type type_args p e)).1)),
  )

  only_arg-YieldsSound : (ts : List RsTypeKind) → YieldsSound (only_arg flags db ts)
  unfolding Sound
  only_arg-YieldsSound [] = err-YieldsSound _
  only_arg-YieldsSound (t ∷ []) = ok-YieldsSound (nullable t) tt
  only_arg-YieldsSound (t ∷ u ∷ ts) = err-YieldsSound _

  primitive_of-YieldsSound :
      (name : String) (p : PrimitiveType) (ts : List RsTypeKind)
      → YieldsSound (primitive_of flags db name p ts)
  unfolding Sound
  primitive_of-YieldsSound name p [] = ok-YieldsSound (primitive p) tt
  primitive_of-YieldsSound name p (t ∷ ts) = err-YieldsSound _

  -- A function pointer, once its arguments are known to be compatible or not.
  func_ptr_of-YieldsSound :
      (abi : String) (lifetime_args : List LifetimeId) (ts : List RsTypeKind)
      → YieldsSound (func_ptr_of flags db abi lifetime_args ts)
  unfolding func_ptr_of Sound
  func_ptr_of-YieldsSound abi lifetime_args ts =
      >>=-YieldsSound (assert_static flags db (get_type_lifetime flags db lifetime_args)) _ (λ u e.
        elim (Option-cases (split_last ts)) [
          | inl none_left ↦ rw none_left (err-YieldsSound _)
          | inr ((init, last), parts) ↦ elim (Bool-cases (all_c_abi_compatible ts)) [
            | inr refused ↦ rw (parts, refused) (err-YieldsSound _)
            | inl compatible ↦
                let (l, i) = split_last-all_c_abi_compatible ts init last parts compatible in
                rw (parts, compatible)
                  (ok-YieldsSound (func_ptr abi last (collected init))
                    (l, ap all_c_abi_compatible (kinds_of-collected init) ∙ i))
          ]
        ])

  other_named-YieldsSound :
      (name : String) (lifetime_args : List LifetimeId) (ts : List RsTypeKind)
      → YieldsSound (other_named flags db name lifetime_args ts)
  unfolding other_named Sound
  other_named-YieldsSound name lifetime_args ts =
      Option-YieldsSound (from_str name) _ _
        (Option-YieldsSound (strip_prefix "#funcPtr " name) _ _
          (ok-YieldsSound (other_type name (collected ts) true) tt)
          (λ abi. func_ptr_of-YieldsSound abi lifetime_args ts))
        (λ p. primitive_of-YieldsSound name p ts)

  named_type-YieldsSound :
      (name : String) (lifetime_args : List LifetimeId) (type_args : RsTypes)
      → YieldsSound (named_type flags db name lifetime_args type_args)
  unfolding named_type
  named_type-YieldsSound name lifetime_args type_args =
      if-YieldsSound _ _ _ (pointer_to-YieldsSound mut_ type_args) (
        if-YieldsSound _ _ _ (pointer_to-YieldsSound const_ type_args) (
          if-YieldsSound _ _ _ (reference_to-YieldsSound mut_ lifetime_args type_args).0 (
            if-YieldsSound _ _ _ (reference_to-YieldsSound const_ lifetime_args type_args).0 (
              if-YieldsSound _ _ _ (reference_to-YieldsSound mut_ lifetime_args type_args).1 (
                if-YieldsSound _ _ _ (reference_to-YieldsSound const_ lifetime_args type_args).1 (
                  if-YieldsSound _ _ _
                    (>>=-YieldsSound (get_type_args flags db type_args) (only_arg flags db)
                      (λ ts e. only_arg-YieldsSound ts))
                    (>>=-YieldsSound (get_type_args flags db type_args)
                      (other_named flags db name lifetime_args)
                      (λ ts e. other_named-YieldsSound name lifetime_args ts))))))))

  -- Where `rs_type_kind` yields a type for a type of the IR that has a name, a pointer or a
  -- reference is to no bridge type, and the result and the parameters of a function pointer are all
  -- compatible with the C ABI by value.
  pub rs_type_kind-Sound :
      (fuel : ℕ) (name : String) (lifetime_args : List LifetimeId) (type_args : RsTypes)
      (unknown_attr : Option String) (decl_id : Option ItemId) (t : RsTypeKind)
      → rs_type_kind flags db fuel
          (rs_type (some name) lifetime_args type_args unknown_attr decl_id)
        ≡ ok t
      → Sound t
  unfolding rs_type_kind YieldsSound
  rs_type_kind-Sound fuel name lifetime_args type_args none decl_id t h =
      named_type-YieldsSound name lifetime_args type_args t h
  rs_type_kind-Sound fuel name lifetime_args type_args (some attr) decl_id t h =
      absurd (ground arith)
