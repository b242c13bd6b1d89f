-- ===== src/Acpi/Rsdt/Search.antt =====
-- `find_table` of kernel/src/acpi/rsdt.cpp.
use epsilon_os.Base.{
  ℕ, zero, suc, ◌+◌, ◌≤◌, ◌<◌, ◌≡◌, ◌≢◌, refl, sym, arith, Option, none, some, ℤ, pos, negsuc,
  subst,
}
use native.Mathlib.Decide.{ℕ_discrete}
use epsilon_os.CString.{Memory, memcmp}
use epsilon_os.CString.Compares.{AgreeBelow, Ordered, memcmp-Ordered}
use epsilon_os.Memory.Address.{tohh}
use epsilon_os.Acpi.Rsdt.{Rsdt, table_address, find_from, find_table}

module _ (hhdm : ℕ) (m : Memory) where
  abbrev pub header_at : Rsdt → ℕ → ℕ
  header_at r i = tohh hhdm (table_address m r i)

  -- Table `i` has the four-byte signature at `name`.
  abbrev pub IsNamed : Rsdt → ℕ → ℕ → Type 0
  IsNamed r name i = AgreeBelow m (header_at r i) name 4

  -- The result of a search of the tables from `lo` up to below `hi`.
  abbrev pub FindsTable : Rsdt → ℕ → ℕ → ℕ → Option ℕ → Type 0
  FindsTable r name lo hi none = (k : ℕ) → lo ≤ k → k < hi → ¬ (IsNamed r name k)
  FindsTable r name lo hi (some header) =
      (i : ℕ) × (lo ≤ i)
      × (i < hi)
      × (header ≡ header_at r i)
      × IsNamed r name i
      × ((k : ℕ) → lo ≤ k → k < i → ¬ (IsNamed r name k))

  FindsTable-suc :
      (r : Rsdt) (name lo hi : ℕ) (o : Option ℕ)
      → ¬ (IsNamed r name lo)
      → FindsTable r name (lo + 1) hi o
      → FindsTable r name lo hi o
  FindsTable-suc r name lo hi none n f = λ k p q. elim (ℕ_discrete k lo) [
    | yes e ↦ subst (λ x. ¬ (IsNamed r name x)) (sym e) n
    | no ne ↦ f k (omega arith) q
  ]
  FindsTable-suc r name lo hi (some header) n (i, p, q, e, named, before) = (
    i,
    omega arith,
    q,
    e,
    named,
    λ k g l. elim (ℕ_discrete k lo) [
      | yes e' ↦ subst (λ x. ¬ (IsNamed r name x)) (sym e') n
      | no ne ↦ before k (omega arith) l
    ],
  )

  differs : (s1 s2 n : ℕ) (z : ℤ) → memcmp s1 s2 n m ≡ z → z ≢ pos 0 → ¬ (AgreeBelow m s1 s2 n)
  differs s1 s2 n z e ne all =
      different z (subst (Ordered m s1 s2 n) e (memcmp-Ordered s1 s2 n m)) ne
    where
      different : (z : ℤ) → Ordered m s1 s2 n z → z ≢ pos 0 → ⊥
      different (pos zero) o ne' = ne' refl
      different (pos (suc zero)) (k, p, _, l) ne' = absurd (omega (arith, all k p))
      different (pos (suc (suc _))) o ne' = o
      different (negsuc zero) (k, p, _, l) ne' = absurd (omega (arith, all k p))
      different (negsuc (suc _)) o ne' = o

  abbrev pick : ℕ → ℤ → Option ℕ → Option ℕ
  pick header z rest = elim z [ pos zero ↦ some header | _ ↦ rest ]

  pick-FindsTable :
      (r : Rsdt) (name i hi : ℕ) (z : ℤ) (rest : Option ℕ)
      → i < hi
      → memcmp (header_at r i) name 4 m ≡ z
      → FindsTable r name (i + 1) hi rest
      → FindsTable r name i hi (pick (header_at r i) z rest)
  pick-FindsTable r name i hi (pos zero) rest p e f = (
    i,
    omega arith,
    p,
    refl,
    subst (Ordered m (header_at r i) name 4) e (memcmp-Ordered (header_at r i) name 4 m),
    λ k g l. absurd (omega arith),
  )
  pick-FindsTable r name i hi (pos (suc z)) rest p e f =
      FindsTable-suc r name i hi rest
        (differs (header_at r i) name 4 (pos (suc z)) e (λ q. absurd (ground arith))) f
  pick-FindsTable r name i hi (negsuc z) rest p e f =
      FindsTable-suc r name i hi rest
        (differs (header_at r i) name 4 (negsuc z) e (λ q. absurd (ground arith))) f

  find_from-FindsTable :
      (left i name : ℕ) (r : Rsdt) → FindsTable r name i (i + left) (find_from hhdm m left i name r)
  unfolding find_from
  find_from-FindsTable zero i name r = λ k p q. absurd (omega arith)
  find_from-FindsTable (suc left) i name r =
      let e : i + suc left ≡ i + 1 + left = omega arith in
      rw e (
        pick-FindsTable r name i (i + 1 + left) (memcmp (header_at r i) name 4 m)
          (find_from hhdm m left (i + 1) name r) (omega arith) refl
          (find_from-FindsTable left (i + 1) name r))

  -- `find_table` returns the header of the first table with the signature asked for, and none
  -- exactly when no table of the root table has it.
  pub find_table-FindsTable :
      (name : ℕ) (r : Rsdt) → FindsTable r name 0 r.table_count (find_table hhdm m name r)
  unfolding find_table
  find_table-FindsTable name r =
      subst (λ hi. FindsTable r name 0 hi (find_from hhdm m r.table_count 0 name r)) (omega arith)
        (find_from-FindsTable r.table_count 0 name r)
