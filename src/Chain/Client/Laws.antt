-- ===== src/Chain/Client/Laws.antt =====
-- The ownership cache of `SuiRpc` and its loops.
use nft_gate.Base.{
  ℕ, zero, suc, ◌+◌, ◌-◌, ◌≤◌, ◌<◌, ◌≡◌, sym, ap, ◌∙◌, ◌⊎◌, inl, inr, Bool, true, Option, none,
  some, ltb, leb, ◌==◌, ◌&&◌, if◌then◌else◌, length, arith, Option-cases, Bool-cases,
}
use nft_gate.Text.{Text, text_eq_refl}
use nft_gate.Assoc.{retain, min_by_key, IsMap}
use nft_gate.Assoc.Laws.{
  lookup-insert, retain-IsMap, remove-IsMap, insert-IsMap, length-insert-le, length-retain-le,
  length-remove-lt, min_by_key-lookup, min_by_key-ne-none,
}
use nft_gate.External.{Crates}
use nft_gate.Ports.{Exit, pass, Run}
use nft_gate.Ports.Laws.{Run-cases, passed_with}
use nft_gate.Chain.Client.Reach.{Reaches, here, ticked, called, Answered}
use nft_gate.Grpc.{Transport, call}
use nft_gate.Grpc.Wire.{Bytes}
use nft_gate.Grpc.Frames.{Fault}
use nft_gate.Chain.{
  max_cache_entries, max_owned_pages, state_list_owned_objects, build_list_owned, ledger_get_object,
  build_get_object,
}
use nft_gate.Chain.Responses.{response_has_owned, response_gate_blocks_access}
use nft_gate.Chain.Responses.Gate.{GateShows, response_gate_blocks_access-shows}
use nft_gate.Chain.Client.{
  Cache, cache_key, cached, evict_entry, store, Settings, next_page, on_page, scan_pages,
  scan_owned, owns_nft, gate_access_blocked,
}

evict_entry-IsMap : (c : Cache) → IsMap c → IsMap (evict_entry c)
unfolding evict_entry
evict_entry-IsMap c d = elim (Option-cases (min_by_key (λ e. e.expiry_ms) c)) [
  | inl e ↦ ground arith
  | inr (b, e) ↦ ground (arith, remove-IsMap b.0 c d)
]

length-evict_entry :
    (c : Cache)
    → IsMap c
    → length c ≤ max_cache_entries
    → length (evict_entry c) < max_cache_entries
unfolding evict_entry
length-evict_entry c d h = elim (Option-cases (min_by_key (λ e. e.expiry_ms) c)) [
  | inl e ↦ ground (arith, min_by_key-ne-none (λ e. e.expiry_ms) c)
  | inr (b, e) ↦
      ground (arith, length-remove-lt b.0 b.1 c (min_by_key-lookup (λ e. e.expiry_ms) c b d e))
]

-- A map within the bound.
abbrev pub IsCache : Cache → Type 0
IsCache c = IsMap c × (length c ≤ max_cache_entries)

pub store-IsCache :
    (key : Text) (b : Bool) (now ttl : ℕ) (c : Cache) → IsCache c → IsCache (store key b now ttl c)
unfolding store
store-IsCache key b now ttl c (d, h) =
    let live = retain (λ e. ltb now e.expiry_ms) c in
    let live-IsMap = retain-IsMap (λ e. ltb now e.expiry_ms) c d in
    (
      insert-IsMap key _ _ (evict_entry-IsMap live live-IsMap),
      omega (
        arith,
        length-retain-le (λ e. ltb now e.expiry_ms) c,
        length-evict_entry live live-IsMap,
        length-insert-le key (record { owns = b; expiry_ms = now + ttl }) (evict_entry live),
      ),
    )

-- A stored answer is given for as long as its time to live, whatever was evicted for it.
pub cached-store :
    (key : Text) (b : Bool) (now ttl later : ℕ) (c : Cache)
    → cached key later (store key b now ttl c) ≡ (if ltb later (now + ttl) then some b else none)
unfolding store cached
cached-store key b now ttl later c = ground (
  arith,
  text_eq_refl key,
  lookup-insert key key (record { owns = b; expiry_ms = now + ttl })
      (evict_entry (retain (λ e. ltb now e.expiry_ms) c)),
)

module _ (crates : Crates) {W : Type 0} (transport : Transport (Cache × W)) (rpc : Settings) where
  -- A page that the node answered with has a pass that grants.
  abbrev pub PageOwns : Cache × W → Text → Text → Option Text → Type 0
  PageOwns s address nft_type g =
      (page : Option Bytes) × (resp : Bytes) × Answered transport rpc s state_list_owned_objects
        (build_list_owned address nft_type page) resp
      × (response_has_owned crates resp g ≡ true)

  on_page-true :
      (resp : Bytes) (g : Option Text) (more : Bytes → Run (Cache × W) Fault Bool)
      (s s' : Cache × W)
      → on_page crates transport rpc resp g more s ≡ (pass true, s')
      → (response_has_owned crates resp g ≡ true)
        ⊎ ((token : Bytes) × (more token s ≡ (pass true, s')))
  unfolding on_page
  on_page-true resp g more s s' h = elim (Bool-cases (response_has_owned crates resp g)) [
    | inl o ↦ inl o
    | inr o ↦ elim (Option-cases (next_page resp)) [
      | inl n ↦ let h' = rw (on_page, o, n) at h in absurd (cc)
      | inr (token, n) ↦ inr (token, rw (on_page, o, n) at h)
    ]
  ]

  scan_pages-true :
      (left : ℕ) (address nft_type : Text) (g : Option Text) (started : ℕ) (token : Option Bytes)
      (s₀ s s' : Cache × W)
      → Reaches transport rpc s₀ s
      → scan_pages crates transport rpc left address nft_type g started token s ≡ (pass true, s')
      → PageOwns s₀ address nft_type g
  unfolding scan_pages
  scan_pages-true zero address nft_type g started token s₀ s s' r h = absurd (cc)
  scan_pages-true (suc left) address nft_type g started token s₀ s s' r h =
      let (t, s₁) = transport.now_ms s in
      let request = build_list_owned address nft_type token in
      elim (Bool-cases (leb (t - started) rpc.timeout_ms)) [
        | inr k ↦ absurd (cc)
        | inl k ↦
            elim (Run-cases (call transport rpc.base_url state_list_owned_objects request s₁)) [
              | inl (e, s₂, q) ↦ let h' = rw (scan_pages, k, q) at h in absurd (cc)
              | inr (resp, s₂, q) ↦
                  elim (on_page-true resp g _ s₂ s' (rw (scan_pages, k, q) at h)) [
                    | inl o ↦ (token, resp, (s₁, s₂, ticked r, q), o)
                    | inr (next, n) ↦
                        scan_pages-true left address nft_type g started (some next) s₀ s₂ s'
                          (called state_list_owned_objects request (ticked r) q) n
                  ]
            ]
      ]

  scan_owned-true :
      (address nft_type : Text) (g : Option Text) (s₀ s s' : Cache × W)
      → Reaches transport rpc s₀ s
      → scan_owned crates transport rpc address nft_type g s ≡ (pass true, s')
      → PageOwns s₀ address nft_type g
  unfolding scan_owned
  scan_owned-true address nft_type g s₀ s s' r h =
      scan_pages-true max_owned_pages address nft_type g (transport.now_ms s).0 none s₀ _ s'
        (ticked r) h

  -- owns_nft admits only on a page that the node answered with during this run and that has a
  -- usable pass for the gate, or, with a cache time above 0, on an entry that the cache holds
  -- for this address, type and gate and that has not expired by the first reading of the clock.
  pub owns_nft-true :
      (address nft_type : Text) (g : Option Text) (s s' : Cache × W)
      → owns_nft crates transport rpc address nft_type g s ≡ (pass true, s')
      → PageOwns s address nft_type g
        ⊎ ((0 < rpc.cache_ttl_ms)
            × (let (now, s₁) = transport.now_ms s in
                cached (cache_key address nft_type g) now s₁.0 ≡ some true))
  unfolding owns_nft
  owns_nft-true address nft_type g s s' h =
      let (now, s₁) = transport.now_ms s in
      elim (Bool-cases (rpc.cache_ttl_ms == 0)) [
        | inl z ↦ inl (scan_owned-true address nft_type g s s s' here (rw (owns_nft, z) at h))
        | inr z ↦ elim (Option-cases (cached (cache_key address nft_type g) now s₁.0)) [
          | inr (b, c) ↦
              let h' = rw (owns_nft, z, c) at h in inr (ground arith, c ∙ ap some (passed_with h'))
          | inl c ↦ elim (Run-cases (scan_owned crates transport rpc address nft_type g s₁)) [
            | inl (e, s₂, q) ↦ let h' = rw (owns_nft, z, c, q) at h in absurd (cc)
            | inr (b, s₂, q) ↦
                let h' = rw (owns_nft, z, c, q) at h in
                inl (
                  scan_owned-true address nft_type g s s₁ s₂ (ticked here)
                    (q ∙ ap (λ x. (pass x, s₂)) (passed_with h')))
          ]
        ]
      ]

  -- gate_access_blocked gives a verdict only if the node answered and the answer has an object
  -- with json in which `paused` and the policy's `pause_blocks_access` are Booleans, and the
  -- verdict is then their conjunction.
  pub gate_access_blocked-shows :
      (gate_id : Text) (b : Bool) (s s' : Cache × W)
      → gate_access_blocked crates transport rpc gate_id s ≡ (pass b, s')
      → (resp : Bytes) × (paused : Bool) × (blocks : Bool) × (call transport rpc.base_url
            ledger_get_object
            (build_get_object gate_id)
            s
          ≡ (pass resp, s'))
        × GateShows resp paused blocks
        × (b ≡ paused && blocks)
  unfolding gate_access_blocked
  gate_access_blocked-shows gate_id b s s' h =
      elim (Run-cases
        (call transport rpc.base_url ledger_get_object (build_get_object gate_id) s)) [
          | inl (e, s₁, q) ↦ let h' = rw (gate_access_blocked, q) at h in absurd (cc)
          | inr (resp, s₁, q) ↦ elim (Option-cases (response_gate_blocks_access resp)) [
            | inl n ↦ let h' = rw (gate_access_blocked, q, n) at h in absurd (cc)
            | inr (c, n) ↦
                let h' = rw (gate_access_blocked, q, n) at h in
                let (paused, blocks, shows, e) = response_gate_blocks_access-shows resp c n in
                (resp, paused, blocks, q ∙ same_world h', shows, sym (passed_with h') ∙ e)
          ]
        ]
    where
      same_world :
          {c : Bool} {resp : Bytes} {s₁ s' : Cache × W}
          → ◌≡◌ {A = Exit Fault Bool × (Cache × W)} (pass c, s₁) (pass b, s')
          → ◌≡◌ {A = Exit Fault Bytes × (Cache × W)} (pass resp, s₁) (pass resp, s')
      same_world h = cc
