-- ===== src/Esi/Budget.antt =====
-- internal/adapter/esi/http/budget.go: the errors of one character in the last minute, against a
-- share of what is left of CCP's limit.
pub mod History
use eve_online_mcp.Prelude.{
  ℕ, suc, ◌+◌, ◌-◌, ◌*◌, ◌/◌, ◌≤◌, ◌<◌, min, max, ◌≡◌, refl, ◌↔◌, ◌⊎◌, inl, inr, Bool, true, false,
  Option, none, some, List, [], ◌∷◌, ◌++◌, arith, if◌then◌else◌, ltb, leb, ◌==◌, Bool-cases, filter,
  length, count, length-filter, ap, sym, ◌∙◌,
}
use eve_online_mcp.Domain.{second}

abbrev pub error_budget_cap : ℕ
error_budget_cap = 20

abbrev pub error_budget_share : ℕ
error_budget_share = 5

abbrev pub window : ℕ
window = 60 * second

-- An integer; `negsuc n` is -(n + 1).
pub data ℤ : Type 0 where
  pos : ℕ → ℤ
  negsuc : ℕ → ℤ

unfoldable pub error_budget_limit : ℤ → ℕ
error_budget_limit (pos remain) = min error_budget_cap (remain / error_budget_share)
error_budget_limit (negsuc n) = min error_budget_cap (0 / error_budget_share)

-- The stamps, oldest first.
pub record ErrorBudget : Type 0 where
  pub stamps : List ℕ

pub record BudgetSpent : Type 0 where
  pub retry_at : ℕ
  pub retry_sec : ℕ

-- The loop stops at the first stamp that is inside the window.
unfoldable pub prune : ℕ → List ℕ → List ℕ
prune now [] = []
prune now (t ∷ stamps) =
    let rest = prune now stamps in if leb (t + window) now then rest else t ∷ stamps

unfoldable pub retry_time : ℕ → List ℕ → ℕ
retry_time now [] = now + window
retry_time now (t ∷ stamps) = t + window

unfoldable pub spent : ℕ → List ℕ → BudgetSpent
unfolding retry_time
spent now stamps =
    let at = retry_time now stamps in
    let wait = max (at - now) second in
    record { retry_at = at; retry_sec = max ((wait + (second - 1)) / second) 1 }

-- `check`: the refusal, if there is one, and the budget.
unfoldable pub check : ℤ → ℕ → ErrorBudget → Option BudgetSpent × ErrorBudget
unfolding prune spent error_budget_limit
check remain now b =
    let stamps = prune now b.stamps in
    if ltb (length stamps) (error_budget_limit remain)
    then (none, record { stamps = stamps })
    else (some (spent now stamps), record { stamps = stamps })

unfoldable pub charge : ℕ → ErrorBudget → ErrorBudget
unfolding prune
charge now b = record { stamps = prune now b.stamps ++ now ∷ [] }

pub count_errors : ℕ → ErrorBudget → ℕ × ErrorBudget
unfolding prune
count_errors now b = let stamps = prune now b.stamps in (length stamps, record { stamps = stamps })

-- Stamps rise along the list, from `low` to `high`.
abbrev pub Rising : ℕ → List ℕ → ℕ → Type 0
Rising low [] high = low ≤ high
Rising low (t ∷ stamps) high = (low ≤ t) × Rising t stamps high

abbrev pub in_window : ℕ → ℕ → Bool
in_window now t = ltb now (t + window)

all_in_window :
    (now low : ℕ) (stamps : List ℕ) (high : ℕ)
    → Rising low stamps high
    → now < low + window
    → filter (in_window now) stamps ≡ stamps
all_in_window now low [] high r h = refl
all_in_window now low (t ∷ stamps) high r h = ground (arith, all_in_window now t stamps high r.1)

-- On stamps that rise, stopping at the first one in the window is filtering.
prune-filter :
    (now low : ℕ) (stamps : List ℕ) (high : ℕ)
    → Rising low stamps high
    → prune now stamps ≡ filter (in_window now) stamps
unfolding prune
prune-filter now low [] high r = refl
prune-filter now low (t ∷ stamps) high r =
    ground (arith, prune-filter now t stamps high r.1, all_in_window now t stamps high r.1)
