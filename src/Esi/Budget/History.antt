-- ===== src/Esi/Budget/History.antt =====
-- internal/adapter/esi/http/budget.go: the stamps that a budget keeps against the times of all the
-- errors that were ever charged to it.
use eve_online_mcp.Prelude.{
  ℕ, ◌≤◌, ◌<◌, ◌≡◌, refl, ◌↔◌, none, List, [], ◌∷◌, ◌++◌, arith, filter, length, count, ap, sym,
  ◌∙◌,
}
use eve_online_mcp.Esi.Budget.{
  ℤ, ErrorBudget, prune, check, charge, count_errors, error_budget_limit, Rising, in_window,
  prune-filter,
}

-- The times of all errors so far, the last call of the budget, and what the budget keeps.
pub record Represents (history : List ℕ) (last : ℕ) (b : ErrorBudget) : Type 0 where
  pub rising : Rising 0 history last
  pub kept : b.stamps ≡ filter (in_window last) history

lower_start :
    (low low' : ℕ) (stamps : List ℕ) (high : ℕ)
    → low' ≤ low
    → Rising low stamps high
    → Rising low' stamps high
lower_start low low' [] high h r = omega arith
lower_start low low' (t ∷ stamps) high h r = (omega arith, r.1)

raise_end :
    (low : ℕ) (stamps : List ℕ) (high high' : ℕ)
    → high ≤ high'
    → Rising low stamps high
    → Rising low stamps high'
raise_end low [] high high' h r = omega arith
raise_end low (t ∷ stamps) high high' h r = (r.0, raise_end t stamps high high' h r.1)

append-Rising :
    (low : ℕ) (stamps : List ℕ) (high now : ℕ)
    → high ≤ now
    → Rising low stamps high
    → Rising low (stamps ++ now ∷ []) now
append-Rising low [] high now h r = (omega arith, omega arith)
append-Rising low (t ∷ stamps) high now h r = (r.0, append-Rising t stamps high now h r.1)

filter-Rising :
    (now low : ℕ) (stamps : List ℕ) (high : ℕ)
    → Rising low stamps high
    → Rising low (filter (in_window now) stamps) high
filter-Rising now low [] high r = r
filter-Rising now low (t ∷ stamps) high r = ground (
  arith,
  filter-Rising now t stamps high r.1,
  lower_start t low (filter (in_window now) stamps) high r.0 (filter-Rising now t stamps high r.1),
)

-- What a later call keeps of what an earlier call kept.
filter-filter :
    (last now : ℕ) (stamps : List ℕ)
    → last ≤ now
    → filter (in_window now) (filter (in_window last) stamps) ≡ filter (in_window now) stamps
filter-filter last now [] h = refl
filter-filter last now (t ∷ stamps) h = ground (arith, filter-filter last now stamps h)

prune-Represents :
    (history : List ℕ) (last now : ℕ) (b : ErrorBudget)
    → Represents history last b
    → last ≤ now
    → prune now b.stamps ≡ filter (in_window now) history
prune-Represents history last now b v h =
    ap (prune now) v.kept
    ∙ prune-filter now 0 (filter (in_window last) history) last
        (filter-Rising last 0 history last v.rising)
    ∙ filter-filter last now history h

count-filter :
    (now : ℕ) (stamps : List ℕ)
    → length (filter (in_window now) stamps) ≡ count (in_window now) stamps
count-filter now [] = refl
count-filter now (t ∷ stamps) = ground (arith, count-filter now stamps)

filter-append-now :
    (now : ℕ) (stamps : List ℕ)
    → filter (in_window now) (stamps ++ now ∷ []) ≡ filter (in_window now) stamps ++ now ∷ []
filter-append-now now [] = ground arith
filter-append-now now (t ∷ stamps) = ground (arith, filter-append-now now stamps)

check-kept :
    (remain : ℤ) (now : ℕ) (b : ErrorBudget) → (check remain now b).1.stamps ≡ prune now b.stamps
unfolding check
check-kept remain now b = ground arith

check-passes :
    (remain : ℤ) (now : ℕ) (b : ErrorBudget)
    → (check remain now b).0 ≡ none ↔ length (prune now b.stamps) < error_budget_limit remain
unfolding check
check-passes remain now b = (ground arith, ground arith)

length-prune :
    (history : List ℕ) (last now : ℕ) (b : ErrorBudget)
    → Represents history last b
    → last ≤ now
    → length (prune now b.stamps) ≡ count (in_window now) history
length-prune history last now b v h =
    ap length (prune-Represents history last now b v h) ∙ count-filter now history

-- On a clock that has not gone back, a budget that represents a history refuses in `check` when as
-- many errors as the limit allows lie in the last minute, and not before; it then represents the
-- same history at its own time.
pub check-Represents :
    (remain : ℤ) (history : List ℕ) (last now : ℕ) (b : ErrorBudget)
    → Represents history last b
    → last ≤ now
    → ((check remain now b).0 ≡ none ↔ count (in_window now) history < error_budget_limit remain)
      × Represents history now (check remain now b).1
unfolding check
check-Represents remain history last now b v h =
    let same = length-prune history last now b v h in
    (
      (
        λ passed. omega (arith, (check-passes remain now b).0 passed, same),
        λ few. (check-passes remain now b).1 (omega (arith, few, same)),
      ),
      record {
        rising = raise_end 0 history last now h v.rising;
        kept = check-kept remain now b ∙ prune-Represents history last now b v h;
      },
    )

-- On a clock that has not gone back, `charge` adds its own time to the end of the history that the
-- budget represents.
pub charge-Represents :
    (history : List ℕ) (last now : ℕ) (b : ErrorBudget)
    → Represents history last b
    → last ≤ now
    → Represents (history ++ now ∷ []) now (charge now b)
unfolding charge
charge-Represents history last now b v h = record {
  rising = append-Rising 0 history last now h v.rising;
  kept =
      ap (λ l. l ++ now ∷ []) (prune-Represents history last now b v h)
      ∙ sym (filter-append-now now history);
}

pub count_errors-Represents :
    (history : List ℕ) (last now : ℕ) (b : ErrorBudget)
    → Represents history last b
    → last ≤ now
    → ((count_errors now b).0 ≡ count (in_window now) history)
      × Represents history now (count_errors now b).1
unfolding count_errors
count_errors-Represents history last now b v h = (
  length-prune history last now b v h,
  record {
    rising = raise_end 0 history last now h v.rising;
    kept = prune-Represents history last now b v h;
  },
)
