-- ===== src/Serve/Bound.antt =====
-- What a bind leaves the loop of lib/go/serify/run.go with.
use serify.Base.{
  Bool, true, false, Option, none, some, [], ◌≡◌, refl, arith, ◌⊎◌, inl, inr, if◌then◌else◌, Str,
  lit, str_eq, str_eq_iff, is_empty, Assoc, lookup,
}
use serify.Proto.{op_bind, status_error, status_skipped, Response}
use serify.Serve.Dispatch.{serve_serialize, serve_deserialize, not_registered}
use serify.Serve.{
  Codec, BindMessage, Json, Format, Loop, bind_to, bind_format, error_answer, skip_bind,
}

error_ne_skipped : str_eq status_error status_skipped ≡ false
unfolding str_eq status_error status_skipped lit
error_ne_skipped = refl

empty_ne_skipped : str_eq [] status_skipped ≡ false
unfolding str_eq status_skipped lit
empty_ne_skipped = refl

module _ (codec : Codec) where
  -- the format that the suite registers for the message
  abbrev pub registered : Assoc (Assoc (Format codec)) → BindMessage → Option (Format codec)
  registered types msg = elim (lookup msg.type_name types) [
    | none ↦ none
    | some formats ↦ lookup msg.format formats
  ]

  -- the loop runs this format's functions on this schema
  pub record Runs (f : Format codec) (msg : BindMessage) (s : Loop codec) : Type 0 where
    pub serializes : s.current_serialize ≡ f.serializer
    pub deserializes : s.current_deserialize ≡ f.deserializer
    pub of_schema : s.schema ≡ msg.schema
    pub audits : s.audit_enabled ≡ msg.audit

  -- neither direction has a function
  abbrev pub Unbound : Loop codec → Type 0
  Unbound s = (s.current_serialize ≡ none) × (s.current_deserialize ≡ none)

  -- the three ends of a bind
  abbrev Refused : Response → Type 0
  Refused r = r.status ≡ status_error

  abbrev Declined : Loop codec × Response → Type 0
  Declined (s, r) = (r.status ≡ status_skipped) × Unbound s

  abbrev Accepted : Assoc (Assoc (Format codec)) → BindMessage → Loop codec × Response → Type 0
  Accepted types msg (s, r) =
      (r.status ≡ []) × ((f : Format codec) × (registered types msg ≡ some f) × Runs f msg s)

  abbrev Ends : Assoc (Assoc (Format codec)) → BindMessage → Loop codec × Response → Type 0
  Ends types msg done = Refused done.1 ⊎ (Declined done ⊎ Accepted types msg done)

  Ends-if :
      (types : Assoc (Assoc (Format codec))) (msg : BindMessage) (b : Bool)
      (x y : Loop codec × Response)
      → Ends types msg x
      → Ends types msg y
      → Ends types msg (if b then x else y)
  Ends-if types msg true x y h k = h
  Ends-if types msg false x y h k = k

  bind_to-Ends :
      (types : Assoc (Assoc (Format codec))) (s : Loop codec) (msg : BindMessage)
      → Ends types msg (bind_to codec types s msg)
  unfolding bind_to
  bind_to-Ends types s msg =
      Ends-if types msg (is_empty msg.type_name) _ _ (inl refl)
        (go (lookup msg.type_name types) refl)
    where
      at_format :
          (formats : Assoc (Format codec)) (f : Option (Format codec))
          → lookup msg.type_name types ≡ some formats
          → lookup msg.format formats ≡ f
          → Ends types msg (elim f [
            | none ↦ skip_bind codec (record s { schema = msg.schema })
            | some f ↦ bind_format codec (record s { schema = msg.schema }) msg.audit f
          ])
      at_format formats none e k = inr (inl (refl, (refl, refl)))
      at_format formats (some f) e k = inr (
          inr (
            refl,
            (
              f,
              rw (e, registered) k,
              record { serializes = refl; deserializes = refl; of_schema = refl; audits = refl },
            ),
          ))

      go :
          (fs : Option (Assoc (Format codec)))
          → lookup msg.type_name types ≡ fs
          → Ends types msg (elim fs [
            | none ↦ skip_bind codec (record s { schema = msg.schema })
            | some formats ↦
                if is_empty msg.format
                then (
                  record s { schema = msg.schema },
                  error_answer codec [] op_bind (lit "bind requires a \"format\" field"),
                )
                else elim (lookup msg.format formats) [
                  | none ↦ skip_bind codec (record s { schema = msg.schema })
                  | some f ↦ bind_format codec (record s { schema = msg.schema }) msg.audit f
                ]
          ])
      go none e = inr (inl (refl, (refl, refl)))
      go (some formats) e =
          Ends-if types msg (is_empty msg.format) _ _ (inl refl)
            (at_format formats (lookup msg.format formats) e refl)

  -- A bind that is neither an error nor a skip, which is what the runner takes for a success, leaves
  -- the worker with the functions that the suite registers for the type and format it names, on its
  -- schema and with its audit flag.
  pub Runs-bind_to :
      (types : Assoc (Assoc (Format codec))) (s : Loop codec) (msg : BindMessage)
      → str_eq (bind_to codec types s msg).1.status status_error ≡ false
      → str_eq (bind_to codec types s msg).1.status status_skipped ≡ false
      → (f : Format codec) × (registered types msg ≡ some f)
        × Runs f msg (bind_to codec types s msg).0
  Runs-bind_to types s msg e k = go (bind_to-Ends types s msg)
    where
      go :
          Ends types msg (bind_to codec types s msg)
          → (f : Format codec) × (registered types msg ≡ some f)
            × Runs f msg (bind_to codec types s msg).0
      go (inl refused) = cc ((str_eq_iff _ _).1 refused, e)
      go (inr (inl declined)) = cc ((str_eq_iff _ _).1 declined.0, k)
      go (inr (inr accepted)) = accepted.1

  Unbound-bind_to :
      (types : Assoc (Assoc (Format codec))) (s : Loop codec) (msg : BindMessage)
      → str_eq (bind_to codec types s msg).1.status status_skipped ≡ true
      → Unbound (bind_to codec types s msg).0
  Unbound-bind_to types s msg k = go (bind_to-Ends types s msg)
    where
      go : Ends types msg (bind_to codec types s msg) → Unbound (bind_to codec types s msg).0
      go (inl refused) = cc (refused, k, error_ne_skipped)
      go (inr (inl declined)) = declined.1
      go (inr (inr accepted)) = cc (accepted.0, k, empty_ne_skipped)

  -- the worker reports an error and changes nothing
  abbrev pub Refuses : Loop codec → Loop codec × Response → Type 0
  Refuses s (s', r) = (s' ≡ s) × (r.status ≡ status_error)

  Refuses-serve_serialize :
      (json : Json codec) (s : Loop codec) (id line : Str)
      → Unbound s
      → Refuses s (serve_serialize codec json s id line)
  unfolding serve_serialize not_registered
  Refuses-serve_serialize json s id line h = (ground (arith, h.0, h.1), ground (arith, h.0, h.1))

  Refuses-serve_deserialize :
      (json : Json codec) (s : Loop codec) (id line : Str)
      → Unbound s
      → Refuses s (serve_deserialize codec json s id line)
  unfolding serve_deserialize not_registered
  Refuses-serve_deserialize json s id line h = (ground (arith, h.0, h.1), ground (arith, h.0, h.1))

  -- After a bind that is answered SKIPPED, the worker answers a serialize and a deserialize request,
  -- whatever they carry, with an ERROR, and changes nothing: no function of an earlier bind is run.
  pub idle-bind_to :
      (types : Assoc (Assoc (Format codec))) (json : Json codec) (s : Loop codec)
      (msg : BindMessage) (id line : Str)
      → str_eq (bind_to codec types s msg).1.status status_skipped ≡ true
      → Refuses
          (bind_to codec types s msg).0
          (serve_serialize codec json (bind_to codec types s msg).0 id line)
        × Refuses
            (bind_to codec types s msg).0
            (serve_deserialize codec json (bind_to codec types s msg).0 id line)
  idle-bind_to types json s msg id line k =
      let unbound = Unbound-bind_to types s msg k in
      (
        Refuses-serve_serialize json (bind_to codec types s msg).0 id line unbound,
        Refuses-serve_deserialize json (bind_to codec types s msg).0 id line unbound,
      )
