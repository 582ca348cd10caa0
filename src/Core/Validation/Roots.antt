-- ===== src/Core/Validation/Roots.antt =====
-- What a configuration without errors says of its roots.
use ya_disk_sync.Base.{
  ℕ, suc, ◌≡◌, refl, ◌∙◌, ◌≢◌, inl, inr, Bool, true, false, Option, none, some, List, [], ◌∷◌, ◌++◌,
  arith, Bool-cases, All, Pairwise,
}
use ya_disk_sync.Base.Result.{Result, ok, err}
use ya_disk_sync.Base.Text.{Text, ◌==◌, ==_iff, is_empty, trim, contains}
use ya_disk_sync.Core.Config.{AppConfig, SyncRootConfig}
use ya_disk_sync.Core.PathMapping.{PathMappingError}
use ya_disk_sync.Core.Validation.{
  Report, Outside, push_if, validate_id, insert_id, lookup_key, validate_key, insert_key,
  report_previous, collision_key, validate_root, roots_loop, validate_roots, validate_config,
}

pub ++-nil : (xs ys : Report) → xs ++ ys ≡ [] → (xs ≡ []) × (ys ≡ [])
++-nil [] ys h = (refl, h)
++-nil (x ∷ xs) ys h = cc

pub push_if-nil :
    (b : Bool) (field message : Text) (i j : Option ℕ)
    → push_if b field message i j ≡ []
    → b ≡ false
unfolding push_if
push_if-nil false field message i j h = refl
push_if-nil true field message i j h = cc

module _ (outside : Outside) (remote_root : Text) where
  -- The root has a key that differs from those before, and an identifier that does.
  abbrev Fresh : List Text → List (Text × ℕ) → SyncRootConfig → Type 0
  Fresh ids cs root =
      (contains ids root.id ≡ false)
      × (key : Text) × (collision_key outside remote_root root ≡ ok key)
      × (lookup_key outside cs key ≡ none)

  -- Two roots with different identifiers and different remote paths, compared in lower case.
  abbrev pub ApartRoots : SyncRootConfig → SyncRootConfig → Type 0
  ApartRoots a b =
      (a.id ≢ b.id) × (collision_key outside remote_root a ≢ collision_key outside remote_root b)

  validate_id-nil :
      (index : ℕ) (ids : List Text) (id : Text)
      → validate_id outside index ids id ≡ []
      → (is_empty (trim id) ≡ false) × (contains ids id ≡ false)
  unfolding validate_id
  validate_id-nil index ids id h = elim (Bool-cases (is_empty (trim id))) [
    | inl blank ↦ let e = push_if-nil true _ _ _ _ (rw blank at h) in cc
    | inr filled ↦ (filled, push_if-nil (contains ids id) _ _ _ _ (rw filled at h))
  ]

  report_previous-nil : (index : ℕ) (o : Option ℕ) → report_previous outside index o ≡ [] → o ≡ none
  unfolding report_previous
  report_previous-nil index none h = refl
  report_previous-nil index (some i) h = let e = push_if-nil true _ _ _ _ h in cc

  validate_key-nil :
      (index : ℕ) (cs : List (Text × ℕ)) (r : Result Text PathMappingError)
      → validate_key outside index cs r ≡ []
      → (key : Text) × (r ≡ ok key) × (lookup_key outside cs key ≡ none)
  unfolding validate_key
  validate_key-nil index cs (ok key) h =
      (key, refl, report_previous-nil index (lookup_key outside cs key) h)
  validate_key-nil index cs (err e) h = let f = push_if-nil true _ _ _ _ h in cc

  validate_root-Fresh :
      (index : ℕ) (ids : List Text) (cs : List (Text × ℕ)) (root : SyncRootConfig)
      → validate_root outside remote_root index ids cs root ≡ []
      → (is_empty (trim root.id) ≡ false) × Fresh ids cs root
  unfolding validate_root
  validate_root-Fresh index ids cs root h =
      let (a, f) = ++-nil _ _ h in
      let (b, _) = ++-nil _ _ a in
      let (c, _) = ++-nil _ _ b in
      let (d, _) = ++-nil _ _ c in
      let (e, _) = ++-nil _ _ d in
      let (filled, new) = validate_id-nil index ids root.id e in
      let (key, found, fresh) =
        validate_key-nil index cs (collision_key outside remote_root root) f in
      (filled, (new, key, found, fresh))

  ok_injective :
      (key other : Text) (r : Result Text PathMappingError)
      → r ≡ ok key
      → r ≡ ok other
      → key ≡ other
  ok_injective key other r e f = ground arith

  -- What is new after one more root was new before, and differs from that root.
  Fresh-step :
      (index : ℕ) (ids : List Text) (cs : List (Text × ℕ)) (a b : SyncRootConfig) (key : Text)
      → collision_key outside remote_root a ≡ ok key
      → Fresh (a.id ∷ ids) ((key, index) ∷ cs) b
      → ApartRoots a b × Fresh ids cs b
  unfolding contains lookup_key
  Fresh-step index ids cs a b key e (h, other, f, g) = elim (Bool-cases (key == other)) [
    | inl same ↦ absurd (ground arith)
    | inr differ ↦ (
      (
        (λ i. ground (arith, (==_iff a.id b.id).1 i)),
        λ i. ground (arith, (==_iff key other).1 (ok_injective key other _ e (i ∙ f))),
      ),
      (ground arith, other, f, ground arith),
    )
  ]

  Fresh-All :
      (index : ℕ) (ids : List Text) (cs : List (Text × ℕ)) (a : SyncRootConfig) (key : Text)
      (roots : List SyncRootConfig)
      → collision_key outside remote_root a ≡ ok key
      → All (Fresh (a.id ∷ ids) ((key, index) ∷ cs)) roots
      → All (ApartRoots a) roots × All (Fresh ids cs) roots
  Fresh-All index ids cs a key [] e h = (tt, tt)
  Fresh-All index ids cs a key (b ∷ roots) e h =
      let (p, q) = Fresh-step index ids cs a b key e h.0 in
      let (ps, qs) = Fresh-All index ids cs a key roots e h.1 in ((p, ps), (q, qs))

  roots_loop-apart :
      (index : ℕ) (ids : List Text) (cs : List (Text × ℕ)) (roots : List SyncRootConfig)
      → roots_loop outside remote_root index ids cs roots ≡ []
      → All (Fresh ids cs) roots × Pairwise ApartRoots roots
  unfolding roots_loop insert_id insert_key
  roots_loop-apart index ids cs [] h = (tt, tt)
  roots_loop-apart index ids cs (root ∷ roots) h =
      let (a, b) = ++-nil _ _ h in
      let (filled, (new, key, e, g)) = validate_root-Fresh index ids cs root a in
      let (fresh, apart) =
        roots_loop-apart (suc index) (root.id ∷ ids) ((key, index) ∷ cs) roots
          (rw (filled, e) at b) in
      let (p, q) = Fresh-All index ids cs root key roots e fresh in
      (((new, key, e, g), q), (p, apart))

  has_key :
      (roots : List SyncRootConfig)
      → All (Fresh [] []) roots
      → All
          (λ (r : SyncRootConfig). (key : Text) × (collision_key outside remote_root r ≡ ok key))
          roots
  has_key [] h = tt
  has_key (r ∷ roots) h = ((h.0.1, h.0.2), has_key roots h.1)

-- A configuration in which the validation finds no error has a root; every root of it maps to a
-- remote path; and any two roots, enabled or not, have different identifiers and remote paths that
-- differ in lower case.
pub validate_config_roots :
    (outside : Outside) (config : AppConfig)
    → validate_config outside config ≡ []
    → (config.roots ≢ [])
      × All
          (λ (r : SyncRootConfig).
            (key : Text) × (collision_key outside config.instance_config.remote_root r ≡ ok key))
          config.roots
      × Pairwise (ApartRoots outside config.instance_config.remote_root) config.roots
unfolding validate_config validate_roots
validate_config_roots outside config h =
    let (_, d) =
      ++-nil _ (validate_roots outside config.instance_config.remote_root config.roots) h in
    go config.roots d
  where
    go :
        (roots : List SyncRootConfig)
        → validate_roots outside config.instance_config.remote_root roots ≡ []
        → (roots ≢ [])
          × All
              (λ (r : SyncRootConfig).
                (key : Text) × (collision_key outside config.instance_config.remote_root r
                  ≡ ok key))
              roots
          × Pairwise (ApartRoots outside config.instance_config.remote_root) roots
    go [] d = let e = push_if-nil true _ _ _ _ d in cc
    go (r ∷ roots) d =
        let (fresh, apart) =
          roots_loop-apart outside config.instance_config.remote_root 0 [] [] (r ∷ roots) d in
        ((λ e. cc), has_key outside config.instance_config.remote_root (r ∷ roots) fresh, apart)
