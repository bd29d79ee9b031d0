-- ===== src/Generator/Parts.antt =====
-- What `_flatten_include` takes over, and what it leaves as it is.
use daq.Config.Tree.{
  Text, Value, Fields, empty, field, lookup, assign, lookup-assign, codes, text_eq, IsDict,
}
use daq.Generator.Flatten.{flatten_include}
use daq.Base.{
  ◌≡◌, sym, ◌∙◌, subst, ◌≢◌, inl, inr, none, some, arith, Bool-cases, Option-cases, ◌==◌, nat_eq,
  string_eq, beq→eq, beq_false, pair_eq,
}

abbrev pub AreTaken : Fields → Fields → Fields → Type 0
AreTaken faucet_conf target_conf new =
    ((part : Text) (value : Value)
      → lookup part faucet_conf ≡ some value
      → lookup part new ≡ some value)
    × ((part : Text) (value : Value)
        → lookup part target_conf ≡ some value
        → part ≢ codes "version"
        → (lookup part faucet_conf ≡ none) × (lookup part new ≡ some value))

-- One part that is not there yet.
AreTaken-assign :
    (key : Text) (value : Value) (faucet_conf target_conf new : Fields)
    → lookup key faucet_conf ≡ none
    → AreTaken (assign key value faucet_conf) target_conf new
    → lookup key target_conf ≡ none
    → AreTaken faucet_conf (field key value target_conf) new
unfolding lookup
AreTaken-assign key value faucet_conf target_conf new free ih once = (
  λ part v there. ih.0 part v (
      ground (
        arith,
        lookup-assign part key value faucet_conf,
        there,
        free,
        beq→eq part key,
        Bool-cases (part == key),
      )),
  λ part v there other. elim (Bool-cases (part == key)) [
    | inl same ↦
        let e = beq→eq part key same in
        (
          subst (λ k. lookup k faucet_conf ≡ none) (sym e) free,
          ih.0 part v (ground (arith, lookup-assign part key value faucet_conf, same, there)),
        )
    | inr apart ↦
        let rest = ih.1 part v (ground (arith, apart, there)) other in
        (ground (arith, lookup-assign part key value faucet_conf, apart, rest.0), rest.1)
  ],
)

-- `_flatten_include` of a file with distinct keys, where no assertion fails: every part of the switch
-- configuration keeps its value, and every part of the file but `version`, none of which was there
-- before, has the file's value.
pub flatten_include-AreTaken :
    (faucet_conf target_conf new : Fields)
    → IsDict target_conf
    → flatten_include faucet_conf target_conf ≡ some new
    → AreTaken faucet_conf target_conf new
unfolding flatten_include
flatten_include-AreTaken faucet_conf empty new d h =
    (λ part v there. ground (arith, there, h), λ part v there other. absurd (unfold lookup in cc))
flatten_include-AreTaken faucet_conf (field key value target_conf) new d h =
    elim (Bool-cases (key == codes "version")) [
      | inl version ↦
          let ih =
            flatten_include-AreTaken faucet_conf target_conf new d.2 (ground (arith, version, h)) in
          (
            ih.0,
            λ part v there other.
                ih.1 part v
                  (unfold lookup in
                    ground (
                      arith,
                      there,
                      beq_false part key (λ e. other (e ∙ beq→eq key (codes "version") version)),
                    ))
                  other,
          )
      | inr part ↦ elim (Option-cases (lookup key faucet_conf)) [
        | inr (old, there) ↦ absurd (ground (arith, part, there, h))
        | inl free ↦
            let ih =
              flatten_include-AreTaken (assign key value faucet_conf) target_conf new d.2
                (ground (arith, part, free, h)) in
            AreTaken-assign key value faucet_conf target_conf new free ih d.0
      ]
    ]
