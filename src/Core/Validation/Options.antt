-- ===== src/Core/Validation/Options.antt =====
-- What the validation accepts of the single options.
use ya_disk_sync.Base.{
  ℕ, ◌+◌, ◌*◌, ◌≡◌, refl, ◌↔◌, ◌<◌, Bool, true, false, ◌&&◌, not, none, [], ◌∷◌, arith, nat_eq, ltb,
  leb,
}
use ya_disk_sync.Base.Text.{Text, is_empty}
use ya_disk_sync.Core.Config.{SyncConfig}
use ya_disk_sync.Core.Validation.{
  push_if, validate_sync_config, split_once_colon, byte_length, parse_digits, parse_u8,
  below_option, is_time_of_parts, is_valid_utc_time,
}
use ya_disk_sync.Core.Validation.Roots.{++-nil, push_if-nil}

-- Four digits with a colon in the middle are a time exactly when the hour is below 24 and the
-- minute below 60.
pub is_valid_utc_time_digits :
    (a b c d : ℕ)
    → a < 10
    → b < 10
    → c < 10
    → d < 10
    → is_valid_utc_time ((b'0' + a) ∷ (b'0' + b) ∷ b':' ∷ (b'0' + c) ∷ (b'0' + d) ∷ [])
      ≡ (ltb (10 * a + b) 24 && ltb (10 * c + d) 60)
unfolding is_valid_utc_time is_time_of_parts split_once_colon byte_length parse_u8 parse_digits
    below_option is_empty
is_valid_utc_time_digits a b c d h i j k = ground arith

positive_test : (n : ℕ) → 0 < n → nat_eq n 0 ≡ false
positive_test n h = ground arith

above_test : (m n : ℕ) → n < m → leb m n ≡ false
above_test m n h = ground arith

positive_of :
    (n : ℕ) (field message : Text) → push_if (nat_eq n 0) field message none none ≡ [] → 0 < n
positive_of n field message h = let e = push_if-nil (nat_eq n 0) _ _ _ _ h in ground arith

above_of : (m n : ℕ) (field message : Text) → push_if (leb m n) field message none none ≡ [] → n < m
above_of m n field message h = let e = push_if-nil (leb m n) _ _ _ _ h in ground arith

on_of : (b : Bool) (field message : Text) → push_if (not b) field message none none ≡ [] → b ≡ true
on_of b field message h = let e = push_if-nil (not b) _ _ _ _ h in ground arith

-- The options of the run pass exactly when the sizes, the numbers of workers that upload and that
-- create directories, the number and the delay of the attempts and the age of the cache are
-- positive, the bound for comparing by name and size lies above the one for hashing, remote extras
-- are deleted, permanently and after the uploads, and dry runs are off.
pub validate_sync_config_iff :
    (s : SyncConfig)
    → (validate_sync_config s ≡ []) ↔ (
        (0 < s.max_file_size_bytes)
        × (0 < s.full_hash_max_bytes)
        × (s.full_hash_max_bytes < s.large_file_name_size_only_min_bytes)
        × (0 < s.upload_concurrency)
        × (0 < s.create_directory_concurrency)
        × (0 < s.retry_attempts)
        × (0 < s.retry_delay_seconds)
        × (0 < s.remote_inventory_cache_ttl_hours)
        × (s.delete_remote_extras ≡ true)
        × (s.delete_permanently ≡ true)
        × (s.delete_after_uploads ≡ true)
        × (s.dry_run_enabled ≡ false))
unfolding validate_sync_config push_if
validate_sync_config_iff s = (
  λ h.
      let (r11, n12) = ++-nil _ _ h in
      let (r10, n11) = ++-nil _ _ r11 in
      let (r9, n10) = ++-nil _ _ r10 in
      let (r8, n9) = ++-nil _ _ r9 in
      let (r7, n8) = ++-nil _ _ r8 in
      let (r6, n7) = ++-nil _ _ r7 in
      let (r5, n6) = ++-nil _ _ r6 in
      let (r4, n5) = ++-nil _ _ r5 in
      let (r3, n4) = ++-nil _ _ r4 in
      let (r2, n3) = ++-nil _ _ r3 in
      let (n1, n2) = ++-nil _ _ r2 in
      (
        positive_of _ _ _ n1,
        positive_of _ _ _ n2,
        above_of _ _ _ _ n3,
        positive_of _ _ _ n4,
        positive_of _ _ _ n5,
        positive_of _ _ _ n6,
        positive_of _ _ _ n7,
        positive_of _ _ _ n8,
        on_of _ _ _ n9,
        on_of _ _ _ n10,
        on_of _ _ _ n11,
        push_if-nil _ _ _ _ _ n12,
      ),
  λ (a, b, c, d, e, f, g, i, j, k, l, m).
      rw
        (
          positive_test _ a,
          positive_test _ b,
          above_test _ _ c,
          positive_test _ d,
          positive_test _ e,
          positive_test _ f,
          positive_test _ g,
          positive_test _ i,
          j,
          k,
          l,
          m,
        )
        refl,
)
