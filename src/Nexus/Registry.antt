-- ===== src/Nexus/Registry.antt =====
-- Which operation a request reaches.
use temporal_cpp.Prelude.{
  Option, ◌≡◌, refl, sym, ap, ◌∙◌, ◌≢◌, String, insert, string_key, ◌==◌, Bool-cases, inl, inr,
  insert_self,
}
use Prim.Native.String.{◌++◌ as concat}
use Prim.Native.Char.{Char, code}
use text.Mathlib.TextLemmas.{nil-append, cons-append}
use temporal_cpp.History.{Payload}
use temporal_cpp.Nexus.{
  Response, answered, Ended, Operations, start_operation, key, register, handle, answer,
}

-- A text without a NUL.
abbrev pub NoNul : String → Type 0
NoNul String.[] = Unit
NoNul (String.◌∷◌ c s) = (code c ≢ 0) × NoNul s

nul : Char
nul = "\0"

key-nil : (operation : String) → key "" operation ≡ String.◌∷◌ nul operation
unfolding key nul
key-nil operation =
    nil-append (concat "\0" operation)
    ∙ (cons-append nul "" operation ∙ ap (String.◌∷◌ nul) (nil-append operation))

nul-code : code nul ≡ 0
unfolding nul
nul-code = refl

key-cons :
    (c : Char) (s operation : String)
    → key (String.◌∷◌ c s) operation ≡ String.◌∷◌ c (key s operation)
unfolding key
key-cons c s operation = cons-append c s (concat "\0" operation)

head-cons :
    {c c' : Char} {s s' : String}
    → String.◌∷◌ c s ≡ String.◌∷◌ c' s'
    → (code c ≡ code c') × (c ≡ c') × (s ≡ s')
head-cons e = (cc, cc, cc)

key-injective :
    (service service' operation operation' : String)
    → NoNul service
    → NoNul service'
    → key service operation ≡ key service' operation'
    → (service ≡ service') × (operation ≡ operation')
key-injective String.[] String.[] operation operation' n n' e =
    (refl, (head-cons (sym (key-nil operation) ∙ e ∙ key-nil operation')).2)
key-injective String.[] (String.◌∷◌ c s) operation operation' n n' e =
    absurd
      (n'.0 (sym (head-cons (sym (key-nil operation) ∙ e ∙ key-cons c s operation')).0 ∙ nul-code))
key-injective (String.◌∷◌ c s) String.[] operation operation' n n' e =
    absurd (n.0 ((head-cons (sym (key-cons c s operation) ∙ e ∙ key-nil operation')).0 ∙ nul-code))
key-injective (String.◌∷◌ c s) (String.◌∷◌ c' s') operation operation' n n' e =
    let same = head-cons (sym (key-cons c s operation) ∙ e ∙ key-cons c' s' operation') in
    let rest = key-injective s s' operation operation' n.1 n'.1 same.2 in ((cc), rest.1)

module _ (rpc : Response → Option String) (token : String) where
  -- The operation that was registered for a pair of names answers the requests for that pair, with
  -- its payload or, when it throws, with an internal error; a request for any other pair is answered
  -- as before, even if the two names run together read the same. The names of services hold no NUL.
  pub handle-register :
      (service service' operation operation' : String) (fn : Payload → Ended)
      (operations : Operations) (input : Payload)
      → NoNul service
      → NoNul service'
      → ¬ ((service ≡ service') × (operation ≡ operation'))
      → (handle rpc token
            (register service operation fn operations)
            (start_operation service operation input)
          ≡ answered rpc token (fn input))
        × (handle rpc token
              (register service operation fn operations)
              (start_operation service' operation' input)
            ≡ handle rpc token operations (start_operation service' operation' input))
  unfolding handle register
  handle-register service service' operation operation' fn operations input n n' other = (
    ap (answer rpc token service operation input)
        (insert_self (key service operation) fn operations),
    elim (Bool-cases (key service' operation' == key service operation)) [
      | inl e ↦ absurd (
          other (
            key-injective service service' operation operation' n n'
              (sym (string_key.equal_sound _ _ e))))
      | inr d ↦
          let missed : insert (key service operation) fn operations (key service' operation')
              ≡ operations (key service' operation') =
            rw d in
          ap (answer rpc token service' operation' input) missed
    ],
  )
