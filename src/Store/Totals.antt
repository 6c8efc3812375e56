-- ===== src/Store/Totals.antt =====
-- The counters that spans add up: errors and LLM tokens, as 64-bit integers.
use tracewell.Prelude.{pos, ◌≡◌, ap, sym, ◌∙◌, arith}
use tracewell.Store.Int64.{Int64, int64, add_int64, add_int64_comm, add_int64_assoc, add_int64-zero}

-- The three counters that a span contributes, and the three cumulative columns.
pub record Totals : Type 0 where
  pub errors : Int64
  pub tokens_prompt : Int64
  pub tokens_completion : Int64

abbrev pub no_totals : Totals
no_totals = record {
  errors = int64 (pos 0);
  tokens_prompt = int64 (pos 0);
  tokens_completion = int64 (pos 0);
}

infixl 65 ◌⊕◌
unfoldable pub ◌⊕◌ : Totals → Totals → Totals
a ⊕ b = record {
  errors = add_int64 a.errors b.errors;
  tokens_prompt = add_int64 a.tokens_prompt b.tokens_prompt;
  tokens_completion = add_int64 a.tokens_completion b.tokens_completion;
}

pub ⊕_comm : (a b : Totals) → a ⊕ b ≡ b ⊕ a
unfolding ◌⊕◌
⊕_comm a b = ground (
  arith,
  add_int64_comm a.errors b.errors,
  add_int64_comm a.tokens_prompt b.tokens_prompt,
  add_int64_comm a.tokens_completion b.tokens_completion,
)

pub ⊕_assoc : (a b c : Totals) → (a ⊕ b) ⊕ c ≡ a ⊕ (b ⊕ c)
unfolding ◌⊕◌
⊕_assoc a b c = ground (
  arith,
  add_int64_assoc a.errors b.errors c.errors,
  add_int64_assoc a.tokens_prompt b.tokens_prompt c.tokens_prompt,
  add_int64_assoc a.tokens_completion b.tokens_completion c.tokens_completion,
)

pub ⊕-no_totals : (a : Totals) → a ⊕ no_totals ≡ a
unfolding ◌⊕◌
⊕-no_totals a = ground (
  arith,
  add_int64-zero a.errors,
  add_int64-zero a.tokens_prompt,
  add_int64-zero a.tokens_completion,
)

pub no_totals-⊕ : (a : Totals) → no_totals ⊕ a ≡ a
no_totals-⊕ a = ⊕_comm no_totals a ∙ ⊕-no_totals a

pub ⊕_right_comm : (a b c : Totals) → (a ⊕ b) ⊕ c ≡ (a ⊕ c) ⊕ b
⊕_right_comm a b c = ⊕_assoc a b c ∙ ap (◌⊕◌ a) (⊕_comm b c) ∙ sym (⊕_assoc a c b)
