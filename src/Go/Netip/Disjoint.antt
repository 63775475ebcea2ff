-- ===== src/Go/Netip/Disjoint.antt =====
-- Two prefixes of which neither contains the other's address have no address in common.
use Prim.Native.Nat.add
use native.Mathlib.Nat.{pow-suc, div-div-eq-div-mul}
use network_plugin_manager.Prelude.{
  ℕ, zero, suc, ◌+◌, ◌-◌, ◌/◌, ◌^◌, ◌≤◌, ◌≡◌, ap, subst, ◌⊎◌, inl, inr, false, arith,
}
use network_plugin_manager.Go.Netip.{Prefix, Contains, contains}

-- Addresses that agree in their first bits agree in fewer of them.
coarser : (k i a b : ℕ) → a / 2 ^ i ≡ b / 2 ^ i → a / 2 ^ (k + i) ≡ b / 2 ^ (k + i)
coarser zero i a b h = rw (add.zero i) h
coarser (suc k) i a b h =
    rw
      (
        add.suc k i,
        pow-suc 2 (k + i),
        ← div-div-eq-div-mul a (2 ^ (k + i)) 2,
        ← div-div-eq-div-mul b (2 ^ (k + i)) 2,
      )
      (ap (λ (n : ℕ). n / 2) (coarser k i a b h))

coarser-le : (i j a b : ℕ) → i ≤ j → a / 2 ^ i ≡ b / 2 ^ i → a / 2 ^ j ≡ b / 2 ^ j
coarser-le i j a b le h = subst (λ n. a / 2 ^ n ≡ b / 2 ^ n) (omega arith) (coarser (j - i) i a b h)

-- No address lies in both.
abbrev pub Disjoint : Prefix → Prefix → Type 0
Disjoint p q = (a : ℕ) → Contains p a → ¬ Contains q a

pub Disjoint-of_contains :
    (p q : Prefix) → contains p q.addr ≡ false → contains q p.addr ≡ false → Disjoint p q
unfolding contains
Disjoint-of_contains p q h k a c d = elim (le_cases (32 - p.bits) (32 - q.bits)) [
  | inl le ↦ ground (arith, coarser-le (32 - p.bits) (32 - q.bits) a p.addr le c)
  | inr le ↦ ground (arith, coarser-le (32 - q.bits) (32 - p.bits) a q.addr le d)
]
  where
    le_cases : (m n : ℕ) → (m ≤ n) ⊎ (n ≤ m)
    le_cases m n = grind arith
