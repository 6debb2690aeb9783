-- ===== src/Sftp/Attributes/Permissions.antt =====
-- toUnixPermissions of plugins/sftpserver/sftpservercommands.cpp, for every value.
use harbour_sailfishconnect.Base.{
  ℕ, zero, suc, ◌*◌, ◌/◌, ◌%◌, ◌≤◌, ◌<◌, ◌≡◌, refl, Bool, true, false, ◌&&◌, ◌||◌, eqb, leb, arith,
  nat_eq, ap, subst, not,
}
use harbour_sailfishconnect.Sftp.Attributes.{to_unix_permissions, has_bit}

-- A test that is true of every number under a bound.
passes_under : (ℕ → Bool) → ℕ → Bool
passes_under test zero = true
passes_under test (suc bound) = passes_under test bound && test bound

passes_under_lem :
    (test : ℕ → Bool) (bound k : ℕ) → k < bound → passes_under test bound ≡ true → test k ≡ true
unfolding passes_under
passes_under_lem test zero k small h = elim small [ ]
passes_under_lem test (suc bound) k small h = ground (arith, passes_under_lem test bound k)

-- Two bits agree.
same : Bool → Bool → Bool
same true b = b
same false true = false
same false false = true

same→eq : (a b : Bool) → same a b ≡ true → a ≡ b
unfolding same
same→eq true b h = cc
same→eq false true h = cc
same→eq false false h = refl

merges : ℕ → ℕ → Bool
unfolding same has_bit to_unix_permissions
merges n weight =
    same (has_bit (to_unix_permissions n) weight)
      (has_bit n weight || has_bit n (16 * weight) || has_bit n (256 * weight))

fits : ℕ → Bool
unfolding to_unix_permissions
fits n = leb (to_unix_permissions n) 15

table : ℕ → Bool
unfolding merges fits
table n = fits n && (merges n 1 && (merges n 2 && merges n 4))

table_holds : passes_under table 4096 ≡ true
unfolding passes_under table
table_holds = refl

and_true : (a b : Bool) → (a && b) ≡ true → (a ≡ true) × (b ≡ true)
and_true a b h = ground arith

module _ (p : ℕ) where
  low : ℕ
  low = p % 4096

  low_result : to_unix_permissions low ≡ to_unix_permissions p
  unfolding to_unix_permissions low
  low_result =
      let a : p % 4096 % 16 ≡ p % 16 = omega arith in
      let b : p % 4096 / 16 % 16 ≡ p / 16 % 16 = omega arith in
      let c : p % 4096 / 256 % 16 ≡ p / 256 % 16 = omega arith in cc (a, b, c)

  low_bits :
      (weight : ℕ) → low / weight % 2 ≡ p / weight % 2 → has_bit low weight ≡ has_bit p weight
  unfolding has_bit
  low_bits weight h = ap (λ n. not (eqb n 0)) h

  agrees :
      (a : ℕ)
      → merges low a ≡ true
      → has_bit low a ≡ has_bit p a
      → has_bit low (16 * a) ≡ has_bit p (16 * a)
      → has_bit low (256 * a) ≡ has_bit p (256 * a)
      → has_bit (to_unix_permissions p) a
        ≡ (has_bit p a || has_bit p (16 * a) || has_bit p (256 * a))
  agrees a h other group user =
      rw (← low_result, ← other, ← group, ← user) (same→eq _ _ (unfold merges in h))

  verdict :
      (fits low ≡ true) × (merges low 1 ≡ true) × (merges low 2 ≡ true) × (merges low 4 ≡ true)
  verdict =
      let whole : table low ≡ true =
        unfold low in passes_under_lem table 4096 (p % 4096) (omega arith) table_holds in
      let (a, r) =
        and_true (fits low) (merges low 1 && (merges low 2 && merges low 4))
          (unfold table in whole) in
      let (b, t) = and_true (merges low 1) (merges low 2 && merges low 4) r in
      let (c, d) = and_true (merges low 2) (merges low 4) t in (a, b, c, d)

  small : to_unix_permissions p ≤ 15
  small =
      subst (λ r. r ≤ 15) low_result
        (let h : leb (to_unix_permissions low) 15 ≡ true = unfold fits in verdict.0 in ground arith)

-- The permissions of group and user end up in the place of those of others. Whatever the file's
-- permissions are, the result has no bit above the fourth, so nothing for group and user; and
-- each of its three bits (1 execute, 2 write, 4 read) is set exactly if the file gives that
-- permission to others, or to the group, or to the user.
pub to_unix_permissions_merges :
    (p : ℕ)
    → (to_unix_permissions p ≤ 15)
      × (has_bit (to_unix_permissions p) 1 ≡ (has_bit p 1 || has_bit p 16 || has_bit p 256))
      × (has_bit (to_unix_permissions p) 2 ≡ (has_bit p 2 || has_bit p 32 || has_bit p 512))
      × (has_bit (to_unix_permissions p) 4 ≡ (has_bit p 4 || has_bit p 64 || has_bit p 1024))
to_unix_permissions_merges p =
    let (_, one, two, four) = verdict p in
    (
      small p,
      agrees p 1 one (bits 1 (omega arith)) (bits 16 (omega arith)) (bits 256 (omega arith)),
      agrees p 2 two (bits 2 (omega arith)) (bits 32 (omega arith)) (bits 512 (omega arith)),
      agrees p 4 four (bits 4 (omega arith)) (bits 64 (omega arith)) (bits 1024 (omega arith)),
    )
  where
    bits :
        (weight : ℕ)
        → p % 4096 / weight % 2 ≡ p / weight % 2
        → has_bit (low p) weight ≡ has_bit p weight
    bits weight h = low_bits p weight (unfold low in h)
