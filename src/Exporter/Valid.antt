-- ===== src/Exporter/Valid.antt =====
-- exporter/opendataexporter/config.go: which configurations `Validate` accepts, and what `Start` and
-- `NewProducer` make of them.
use opendata_go.Base.{
  sym, subst, refl, Bool, true, false, Option, none, some, [], ◌∷◌, ◌≡◌, ◌≢◌, ◌⊎◌, ◌↔◌, inl, inr,
  ◌≤◌, not, ◌&&◌, ℕ, arith, Bool-cases,
}
use mathlib.Core.Option.{some-injective}
use opendata_go.Bytes.{Bytes, ℤ, pos, negsuc}
use opendata_go.Bytes.Decimal.{same, same_iff}
use opendata_go.Batch.{compression_none, compression_zstd}
use opendata_go.Producer.Config.{below_one, or_default, with_defaults}
use opendata_go.Exporter.Settings.{
  Config, ConfigError, object_store_type_s3, compression_none_name, compression_zstd_name, to_lower,
  empty, negative, refused_if, compression_type_from_string, queue_refused, validate_config,
  validate, create_default_config, producer_config_of,
}

abbrev pub AtLeastOne : ℤ → Type 0
AtLeastOne (pos n) = 1 ≤ n
AtLeastOne (negsuc n) = ⊥

abbrev pub AtLeastZero : ℤ → Type 0
AtLeastZero (pos n) = Unit {0}
AtLeastZero (negsuc n) = ⊥

-- A usable configuration, its compression in any case of letters.
pub record IsValid {Q : Type 0} (queue_fails : Q → Bool) (c : Config Q) : Type 0 where
  pub is_s3 : c.object_store.store_type ≡ object_store_type_s3
  pub bucket_set : c.object_store.bucket ≢ []
  pub region_set : c.object_store.region ≢ []
  pub prefix_set : c.data_path_prefix ≢ []
  pub manifest_set : c.manifest_path ≢ []
  pub interval : AtLeastOne c.flush_interval
  pub size : AtLeastOne c.flush_size_bytes
  pub uploads : AtLeastOne c.upload_concurrency
  pub encodes : AtLeastOne c.encode_concurrency
  pub batches : AtLeastOne c.max_in_flight_batches
  pub in_flight : AtLeastOne c.max_in_flight_bytes
  pub appends : AtLeastOne c.manifest_append_batch_size
  pub queue : (q : Q) → c.sending_queue ≡ some q → queue_fails q ≡ false
  pub no_negative_timeout : AtLeastZero c.timeout
  pub known_compression :
      (to_lower c.compression ≡ compression_none_name)
      ⊎ (to_lower c.compression ≡ compression_zstd_name)

passed :
    (b : Bool) (e : ConfigError) (rest : Option ConfigError)
    → refused_if b e rest ≡ none
    → (b ≡ false) × (rest ≡ none)
unfolding refused_if
passed true e rest h = absurd (cc h)
passed false e rest h = (refl, h)

pass :
    (b : Bool) (e : ConfigError) (rest : Option ConfigError)
    → b ≡ false
    → rest ≡ none
    → refused_if b e rest ≡ none
unfolding refused_if
pass true e rest b h = absurd (cc b)
pass false e rest b h = h

empty_iff : (s : Bytes) → (empty s ≡ false) ↔ (s ≢ [])
unfolding empty
empty_iff [] = (λ h. absurd (cc h), λ h. absurd (h refl))
empty_iff (b ∷ s) = (λ h. λ e. cc e, λ h. refl)

below_one_iff : (x : ℤ) → (below_one x ≡ false) ↔ AtLeastOne x
below_one_iff (pos n) = (λ h. ground (arith, h), λ h. ground (arith, h))
below_one_iff (negsuc n) = (λ h. cc h, λ h. absurd h)

negative_iff : (x : ℤ) → (negative x ≡ false) ↔ AtLeastZero x
negative_iff (pos n) = (λ h. tt, λ h. refl)
negative_iff (negsuc n) = (λ h. cc h, λ h. absurd h)

not_iff : (b : Bool) → (not b ≡ false) ↔ (b ≡ true)
not_iff true = (λ h. refl, λ h. refl)
not_iff false = (λ h. cc h, λ h. cc h)

neither_iff : (a b : Bool) → (not a && not b ≡ false) ↔ ((a ≡ true) ⊎ (b ≡ true))
neither_iff true b = (λ h. inl refl, λ h. refl)
neither_iff false true = (λ h. inr refl, λ h. refl)
neither_iff false false = (λ h. absurd (cc h), λ h. absurd (elim h [ inl e ↦ cc e | inr e ↦ cc e ]))

queue_refused_iff :
    {Q : Type 0} (queue_fails : Q → Bool) (x : Option Q)
    → (queue_refused queue_fails x ≡ false) ↔ ((q : Q) → x ≡ some q → queue_fails q ≡ false)
queue_refused_iff queue_fails none = (λ h. λ q e. absurd (cc e), λ h. refl)
queue_refused_iff queue_fails (some q) =
    (λ h. λ q' e. subst (λ y. queue_fails y ≡ false) (some-injective _ _ e) h, λ h. h q refl)

validate_config_iff :
    {Q : Type 0} (queue_fails : Q → Bool) (c : Config Q)
    → (validate_config queue_fails c ≡ none) ↔ IsValid queue_fails c
unfolding validate_config
validate_config_iff queue_fails c = (
  λ h.
      let (_, h1) = passed _ _ _ h in
      let (b2, h2) = passed _ _ _ h1 in
      let (b3, h3) = passed _ _ _ h2 in
      let (b4, h4) = passed _ _ _ h3 in
      let (b5, h5) = passed _ _ _ h4 in
      let (b6, h6) = passed _ _ _ h5 in
      let (b7, h7) = passed _ _ _ h6 in
      let (b8, h8) = passed _ _ _ h7 in
      let (b9, h9) = passed _ _ _ h8 in
      let (b10, h10) = passed _ _ _ h9 in
      let (b11, h11) = passed _ _ _ h10 in
      let (b12, h12) = passed _ _ _ h11 in
      let (b13, h13) = passed _ _ _ h12 in
      let (b14, h14) = passed _ _ _ h13 in
      let (b15, h15) = passed _ _ _ h14 in
      let (b16, h16) = passed _ _ _ h15 in
      record {
        is_s3 = (same_iff _ _).0 ((not_iff _).0 b2);
        bucket_set = (empty_iff _).0 b3;
        region_set = (empty_iff _).0 b4;
        prefix_set = (empty_iff _).0 b5;
        manifest_set = (empty_iff _).0 b6;
        interval = (below_one_iff c.flush_interval).0 b7;
        size = (below_one_iff c.flush_size_bytes).0 b8;
        uploads = (below_one_iff c.upload_concurrency).0 b9;
        encodes = (below_one_iff c.encode_concurrency).0 b10;
        batches = (below_one_iff c.max_in_flight_batches).0 b11;
        in_flight = (below_one_iff c.max_in_flight_bytes).0 b12;
        appends = (below_one_iff c.manifest_append_batch_size).0 b13;
        queue = (queue_refused_iff queue_fails c.sending_queue).0 b14;
        no_negative_timeout = (negative_iff c.timeout).0 b15;
        known_compression = elim ((neither_iff _ _).0 b16) [
          | inl e ↦ inl ((same_iff _ _).0 e)
          | inr e ↦ inr ((same_iff _ _).0 e)
        ];
      },
  λ v.
      let no_type : empty c.object_store.store_type ≡ false =
        (empty_iff _).1 (λ e. cc (v.is_s3, e)) in
      pass _ _ _ no_type (
        pass _ _ _ ((not_iff _).1 ((same_iff _ _).1 v.is_s3)) (
          pass _ _ _ ((empty_iff _).1 v.bucket_set) (
            pass _ _ _ ((empty_iff _).1 v.region_set) (
              pass _ _ _ ((empty_iff _).1 v.prefix_set) (
                pass _ _ _ ((empty_iff _).1 v.manifest_set) (
                  pass _ _ _ ((below_one_iff c.flush_interval).1 v.interval) (
                    pass _ _ _ ((below_one_iff c.flush_size_bytes).1 v.size) (
                      pass _ _ _ ((below_one_iff c.upload_concurrency).1 v.uploads) (
                        pass _ _ _ ((below_one_iff c.encode_concurrency).1 v.encodes) (
                          pass _ _ _ ((below_one_iff c.max_in_flight_batches).1 v.batches) (
                            pass _ _ _ ((below_one_iff c.max_in_flight_bytes).1 v.in_flight) (
                              pass _ _ _ ((below_one_iff c.manifest_append_batch_size).1 v.appends)
                                (pass _ _ _
                                  ((queue_refused_iff queue_fails c.sending_queue).1 v.queue)
                                  (pass _ _ _ ((negative_iff c.timeout).1 v.no_negative_timeout) (
                                    pass _ _ _
                                      ((neither_iff _ _).1 (elim v.known_compression [
                                        | inl e ↦ inl ((same_iff _ _).1 e)
                                        | inr e ↦ inr ((same_iff _ _).1 e)
                                      ]))
                                      refl))))))))))))))),
)

-- `Validate` returns no error just for a configuration that is there and has a usable value in every
-- field that it reads.
pub validate_iff :
    {Q : Type 0} (queue_fails : Q → Bool) (config : Option (Config Q))
    → (validate queue_fails config ≡ none)
      ↔ ((c : Config Q) × (config ≡ some c) × IsValid queue_fails c)
unfolding validate
validate_iff queue_fails none = (λ h. absurd (cc h), λ (c, e, v). absurd (cc e))
validate_iff queue_fails (some c) = (
  λ h. (c, refl, (validate_config_iff queue_fails c).0 h),
  λ (c', e, v).
      (validate_config_iff queue_fails c).1
        (subst (IsValid queue_fails) (sym (some-injective _ _ e)) v),
)

or_default-AtLeastOne : (x d : ℤ) → AtLeastOne x → or_default x d ≡ x
or_default-AtLeastOne x d h = rw ((below_one_iff x).1 h)

-- The compression of a configuration that was accepted is known.
pub known-compression_type :
    {Q : Type 0} (queue_fails : Q → Bool) (c : Config Q)
    → IsValid queue_fails c
    → (kind : ℕ) × (compression_type_from_string c.compression ≡ some kind)
unfolding compression_type_from_string
known-compression_type queue_fails c v =
    elim (Bool-cases (same (to_lower c.compression) compression_none_name)) [
      | inl is_none ↦ (compression_none, rw is_none)
      | inr other ↦ elim v.known_compression [
        | inl e ↦ absurd (cc (other, (same_iff _ _).1 e))
        | inr e ↦ (compression_zstd, rw (other, (same_iff _ _).1 e))
      ]
    ]

-- The default configuration is usable once a bucket and a region are filled in, if the queue's
-- default is.
pub create_default_config-IsValid :
    {Q : Type 0} (queue_fails : Q → Bool) (default_queue : Q) (bucket region endpoint : Bytes)
    → queue_fails default_queue ≡ false
    → bucket ≢ []
    → region ≢ []
    → IsValid queue_fails (record (create_default_config default_queue) {
      object_store = record {
        store_type = object_store_type_s3;
        bucket = bucket;
        region = region;
        endpoint = endpoint;
      };
    })
unfolding create_default_config to_lower
create_default_config-IsValid queue_fails default_queue bucket region endpoint q b r = record {
  is_s3 = refl;
  bucket_set = b;
  region_set = r;
  prefix_set = λ e. cc e;
  manifest_set = λ e. cc e;
  interval = omega arith;
  size = omega arith;
  uploads = omega arith;
  encodes = omega arith;
  batches = omega arith;
  in_flight = omega arith;
  appends = omega arith;
  queue = λ q' e. subst (λ y. queue_fails y ≡ false) (some-injective _ _ e) q;
  no_negative_timeout = tt;
  known_compression = inr refl;
}

-- The defaults of `NewProducer` change nothing in what an accepted configuration is turned into.
pub with_defaults-producer_config_of :
    {Q : Type 0} (queue_fails : Q → Bool) (c : Config Q) (kind : ℕ)
    → IsValid queue_fails c
    → with_defaults (producer_config_of c kind) ≡ producer_config_of c kind
unfolding producer_config_of
with_defaults-producer_config_of queue_fails c kind v = rw (
  or_default-AtLeastOne c.max_in_flight_bytes (pos 268435456) v.in_flight,
  or_default-AtLeastOne c.max_in_flight_batches (pos 64) v.batches,
)
