-- ===== src/Chain/Responses/Laws.antt =====
-- When the answers of the node grant: `response_has_consume` and `response_has_owned` by what stands
-- in the messages.
use nft_gate.Base.{
  ℕ, ◌≡◌, refl, inl, inr, ◌↔◌, true, Option, none, some, List, any, arith, Any, any-true, true-any,
  Any-map, Bool, false, not, ◌&&◌, if◌then◌else◌, [], Option-cases, Bool-cases,
}
use nft_gate.Base.Options.{some-injective}
use nft_gate.Text.{Text, codes, text_eq_iff}
use nft_gate.External.{Crates}
use nft_gate.Sig.{normalize_address, normalize_move_type}
use nft_gate.Grpc.Wire.{
  Bytes, Field, varint_of, len_of, fixed64, fixed32, fields, fields_within, find_map, field_bytes,
  field_str,
}
use nft_gate.Grpc.Values.{value_find_string, value_find_string_at}
use nft_gate.Chain.{
  object_json, resp_transaction, executed_effects, executed_events, effects_status, status_success,
  events_events, event_sender, event_type, event_json, loo_objects,
}
use nft_gate.Chain.Responses.{
  event_is_recent, pass_is_usable, is_success, effects_succeeded, json_of, same_address,
  is_for_gate, has_type, is_consume, in_field, response_has_consume, is_owned, response_has_owned,
}
use nft_gate.Chain.Responses.Fields.{passed, InField, any_field-lem}
use nft_gate.Chain.Responses.Passes.{IsRecent, IsUsable, event_is_recent_lem, pass_is_usable_lem}

no_string : (key : Text) → value_find_string [] key ≡ none
unfolding value_find_string value_find_string_at fields fields_within find_map
no_string key = refl

-- The json of a message says something that an empty one does not.
abbrev pub HasJson : ℕ → (Bytes → Type 0) → Bytes → Type 0
HasJson field P msg = (json : Bytes) × (field_bytes msg field ≡ some json) × P json

with_json :
    (field : ℕ) (p : Bytes → Bool) (P : Bytes → Type 0) (msg : Bytes)
    → p [] ≡ false
    → ((json : Bytes) → (p json ≡ true) ↔ P json)
    → (p (json_of field msg) ≡ true) ↔ HasJson field P msg
unfolding json_of
with_json field p P msg none_in_nothing q = (there, back)
  where
    there : p (json_of field msg) ≡ true → HasJson field P msg
    there h = elim (Option-cases (field_bytes msg field)) [
      | inl e ↦ absurd (ground (arith, none_in_nothing, rw (json_of, e) at h))
      | inr (json, e) ↦ (json, e, (q json).0 (rw (json_of, e) at h))
    ]

    back : HasJson field P msg → p (json_of field msg) ≡ true
    back (json, e, h) = rw (json_of, e) ((q json).1 h)

-- The status of the effects is there and says success.
abbrev pub Succeeded : Bytes → Type 0
Succeeded tx =
    (effects : Bytes) × (status : Bytes) × (field_bytes tx executed_effects ≡ some effects)
    × (field_bytes effects effects_status ≡ some status)
    × Any (λ f. f ≡ varint_of status_success 1) (fields status)

is_success_lem : (f : Field) → (is_success f ≡ true) ↔ (f ≡ varint_of status_success 1)
is_success_lem (varint_of n v) = ground arith
is_success_lem (len_of n b) = ((λ h. absurd (cc)), λ h. absurd (cc))
is_success_lem fixed64 = ((λ h. absurd (cc)), λ h. absurd (cc))
is_success_lem fixed32 = ((λ h. absurd (cc)), λ h. absurd (cc))

effects_succeeded_lem : (tx : Bytes) → (effects_succeeded tx ≡ true) ↔ Succeeded tx
unfolding effects_succeeded
effects_succeeded_lem tx = (there, back)
  where
    there : effects_succeeded tx ≡ true → Succeeded tx
    there h = elim (Option-cases (field_bytes tx executed_effects)) [
      | inl e ↦ absurd (ground (arith, h, e))
      | inr (effects, e) ↦ elim (Option-cases (field_bytes effects effects_status)) [
        | inl o ↦ absurd (ground (arith, rw (effects_succeeded, e, o) at h))
        | inr (status, o) ↦
            let a = any-true is_success (fields status) (rw (effects_succeeded, e, o) at h) in
            (effects, status, e, o, Any-map (fields status) (λ f. (is_success_lem f).0) a)
      ]
    ]

    back : Succeeded tx → effects_succeeded tx ≡ true
    back (effects, status, e, o, a) =
        rw (effects_succeeded, e, o)
          (true-any is_success (fields status)
            (Any-map (fields status) (λ f. (is_success_lem f).1) a))

both : (a : Bool) {b : Bool} → (a && b) ≡ true → (a ≡ true) × (b ≡ true)
both true h = (refl, h)
both false h = absurd (cc)

module _ (crates : Crates) where
  -- An address that is there and normalises as `b` does
  abbrev pub Names : Option Text → Text → Type 0
  Names a b = (t : Text) × (a ≡ some t) × (normalize_address crates t ≡ normalize_address crates b)

  abbrev pub ForGate : Option Text → Bytes → Type 0
  ForGate none json = Unit
  ForGate (some g) json = Names (value_find_string json (codes "gate_id")) g

  same_address_lem : (a : Option Text) (b : Text) → (same_address crates a b ≡ true) ↔ Names a b
  unfolding same_address
  same_address_lem none b = ((λ h. absurd (cc)), λ h. absurd (cc))
  same_address_lem (some a) b = (
    (λ h. (a, refl, (text_eq_iff _ _).0 h)),
    λ (b, e, q). rw (some-injective e) ((text_eq_iff _ _).1 q),
  )

  is_for_gate_lem :
      (g : Option Text) (json : Bytes) → (is_for_gate crates g json ≡ true) ↔ ForGate g json
  unfolding is_for_gate
  is_for_gate_lem none json = ((λ h. tt), λ h. refl)
  is_for_gate_lem (some g) json = same_address_lem _ g

  abbrev HasType : Option Text → Text → Type 0
  HasType t want = (a : Text) × (t ≡ some a) × (normalize_move_type crates a ≡ want)

  has_type_lem : (want : Text) (t : Option Text) → (has_type crates want t ≡ true) ↔ HasType t want
  unfolding has_type
  has_type_lem want none = ((λ h. absurd (cc)), λ h. absurd (cc))
  has_type_lem want (some t) = (
    (λ h. (t, refl, (text_eq_iff _ _).0 h)),
    λ (b, e, q). rw (some-injective e) ((text_eq_iff _ _).1 q),
  )

  -- The json of an event that is recent and for the gate
  abbrev pub IsTimely : Option Text → ℕ → ℕ → Bytes → Type 0
  IsTimely gate_id now max_age_secs json = IsRecent json now max_age_secs × ForGate gate_id json

  -- An event that consumes a use of the pass for this address and gate, recent enough.
  abbrev pub IsConsume : Text → Text → Option Text → ℕ → ℕ → Bytes → Type 0
  IsConsume address want_type gate_id now max_age_secs ev =
      HasType (field_str ev event_type) want_type
      × Names (field_str ev event_sender) address
      × HasJson event_json (IsTimely gate_id now max_age_secs) ev

  timely : Option Text → ℕ → ℕ → Bytes → Bool
  timely g now age json = event_is_recent json now age && is_for_gate crates g json

  timely_lem :
      (g : Option Text) (now age : ℕ) (json : Bytes)
      → (timely g now age json ≡ true) ↔ IsTimely g now age json
  unfolding timely
  timely_lem g now age json = (
    (λ h.
        let (a, b) = both (event_is_recent json now age) h in
        ((event_is_recent_lem json now age).0 a, (is_for_gate_lem g json).0 b)),
    λ (a, b). rw ((event_is_recent_lem json now age).1 a, (is_for_gate_lem g json).1 b) refl,
  )

  timely_nothing : (g : Option Text) (now age : ℕ) → timely g now age [] ≡ false
  unfolding timely event_is_recent
  timely_nothing g now age = rw (event_is_recent, no_string (codes "timestamp_ms")) refl

  is_consume-IsConsume :
      (address want : Text) (g : Option Text) (now age : ℕ) (ev : Bytes)
      → is_consume crates address want g now age ev ≡ true
      → IsConsume address want g now age ev
  unfolding is_consume timely
  is_consume-IsConsume address want g now age ev h =
      let (t, h₁) = passed (has_type crates want (field_str ev event_type)) h in
      let (a, h₂) = passed (same_address crates (field_str ev event_sender) address) h₁ in
      let (r, f) = passed (event_is_recent (json_of event_json ev) now age) h₂ in
      (
        (has_type_lem want _).0 t,
        (same_address_lem _ address).0 a,
        (with_json event_json (timely g now age) (IsTimely g now age) ev (timely_nothing g now age)
              (timely_lem g now age)).0
            (rw (r, f) refl),
      )

  IsConsume-is_consume :
      (address want : Text) (g : Option Text) (now age : ℕ) (ev : Bytes)
      → IsConsume address want g now age ev
      → is_consume crates address want g now age ev ≡ true
  unfolding is_consume timely
  IsConsume-is_consume address want g now age ev (t, a, j) =
      let (r, f) = both (event_is_recent (json_of event_json ev) now age) (
        (with_json event_json (timely g now age) (IsTimely g now age) ev (timely_nothing g now age)
            (timely_lem g now age)).1
          j) in
      rw ((has_type_lem want _).1 t, (same_address_lem _ address).1 a, r, f) refl

  is_consume_lem :
      (address want : Text) (g : Option Text) (now age : ℕ) (ev : Bytes)
      → (is_consume crates address want g now age ev ≡ true) ↔ IsConsume address want g now age ev
  is_consume_lem address want g now age ev = (
    is_consume-IsConsume address want g now age ev,
    IsConsume-is_consume address want g now age ev,
  )

  abbrev pub HasConsume : Bytes → Text → Text → Option Text → ℕ → ℕ → Type 0
  HasConsume resp address consumed_type gate_id now max_age_secs =
      (tx : Bytes) × (events : Bytes) × (field_bytes resp resp_transaction ≡ some tx)
      × Succeeded tx
      × (field_bytes tx executed_events ≡ some events)
      × Any
          (InField events_events
            (IsConsume address (normalize_move_type crates consumed_type) gate_id now max_age_secs))
          (fields events)

  -- response_has_consume holds exactly if the response has a transaction whose effects have a
  -- status with the varint of success, and whose events have, in a field 3, one of the wanted
  -- type after normalisation, sent by the address, and with a json that gives a timestamp of
  -- digits, a u64 that is neither ahead of the clock by more than the skew allowed nor older
  -- than the age allowed, and the gate where one is given.
  pub response_has_consume_iff :
      (resp : Bytes) (address consumed_type : Text) (g : Option Text) (now age : ℕ)
      → (response_has_consume crates resp address consumed_type g now age ≡ true)
        ↔ HasConsume resp address consumed_type g now age
  unfolding response_has_consume
  response_has_consume_iff resp address ct g now age = (seen, given)
    where
      lem :
          (fs : List Field)
          → (any
                (in_field events_events
                  (is_consume crates address (normalize_move_type crates ct) g now age))
                fs
              ≡ true)
            ↔ Any
                (InField events_events
                  (IsConsume address (normalize_move_type crates ct) g now age))
                fs
      lem = any_field-lem events_events _ _ (is_consume_lem address _ g now age)

      seen :
          response_has_consume crates resp address ct g now age ≡ true
          → HasConsume resp address ct g now age
      seen h = elim (Option-cases (field_bytes resp resp_transaction)) [
        | inl e ↦ absurd (cc)
        | inr (tx, e) ↦ elim (Option-cases (field_bytes tx executed_events)) [
          | inl o ↦ absurd (ground (arith, Bool-cases (effects_succeeded tx)))
          | inr (events, o) ↦
              let (s, a) = passed (effects_succeeded tx) (rw (response_has_consume, e, o) at h) in
              (tx, events, e, (effects_succeeded_lem tx).0 s, o, (lem (fields events)).0 a)
        ]
      ]

      given :
          HasConsume resp address ct g now age
          → response_has_consume crates resp address ct g now age ≡ true
      given (tx, events, e, s, o, a) =
          rw (response_has_consume, e, (effects_succeeded_lem tx).1 s, o)
            ((lem (fields events)).1 a)

  -- The json of a pass that may be used, of the gate
  abbrev pub IsPass : Option Text → Bytes → Type 0
  IsPass gate_id json = IsUsable json × ForGate gate_id json

  abbrev pub IsOwned : Option Text → Bytes → Type 0
  IsOwned gate_id = HasJson object_json (IsPass gate_id)

  admits : Option Text → Bytes → Bool
  admits g json = if not (pass_is_usable json) then false else is_for_gate crates g json

  admits_lem : (g : Option Text) (json : Bytes) → (admits g json ≡ true) ↔ IsPass g json
  unfolding admits
  admits_lem g json = (
    (λ h.
        let (u, f) = passed (pass_is_usable json) h in
        ((pass_is_usable_lem json).0 u, (is_for_gate_lem g json).0 f)),
    λ (u, f). rw ((pass_is_usable_lem json).1 u, (is_for_gate_lem g json).1 f) refl,
  )

  admits_nothing : (g : Option Text) → admits g [] ≡ false
  unfolding admits pass_is_usable
  admits_nothing g = rw (pass_is_usable, no_string (codes "@variant")) refl

  is_owned_lem : (g : Option Text) (obj : Bytes) → (is_owned crates g obj ≡ true) ↔ IsOwned g obj
  unfolding is_owned admits
  is_owned_lem g obj =
      with_json object_json (admits g) (IsPass g) obj (admits_nothing g) (admits_lem g)

  -- response_has_owned holds exactly if some object of the page has a json that is an unlimited
  -- pass's, or a single-use pass's whose count of uses left is spelled in 1 to 20 digits and is
  -- a u64 above 0, and that is for the gate where one is given.
  pub response_has_owned_iff :
      (resp : Bytes) (g : Option Text)
      → (response_has_owned crates resp g ≡ true)
        ↔ Any (InField loo_objects (IsOwned g)) (fields resp)
  unfolding response_has_owned
  response_has_owned_iff resp g = any_field-lem loo_objects _ _ (is_owned_lem g) (fields resp)
