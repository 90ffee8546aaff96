-- ===== src/Config/Load/Budget.antt =====
-- go/internal/config/config.go: the budget of a prompt in an int64.
use automation_agent.Common.{ℕ, ◌*◌, ◌^◌, ◌≤◌, ◌<◌, ◌≡◌, pos, arith, eq_text}
use automation_agent.Config.Settings.{ollama}
use automation_agent.Config.Load.{
  window_bytes, max_ollama_num_ctx, default_review_bytes, default_standards_bytes,
}

window_bytes_exact : (n : ℕ) → n ≤ max_ollama_num_ctx → window_bytes (pos n) ≡ pos (n * 2)
unfolding window_bytes
window_bytes_exact n h = ground (arith, h)

-- A window that `loadFrom` admits is budgeted exactly, at two bytes a token, as the diff and as the
-- standards of the local model, and the product does not overflow.
pub default_bytes_exact :
    (n : ℕ)
    → n ≤ max_ollama_num_ctx
    → (default_review_bytes ollama (pos n) ≡ pos (n * 2))
      × (default_standards_bytes ollama (pos n) ≡ pos (n * 2))
      × (n * 2 < 2 ^ 26)
unfolding default_review_bytes default_standards_bytes window_bytes eq_text
default_bytes_exact n h = let exact = window_bytes_exact n h in (exact, exact, ground (arith, h))
