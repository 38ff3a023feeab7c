-- ===== src/Float.antt =====
-- The floating-point numbers and the operations on them that the program uses: a parameter of
-- whatever computes with them.
use hidden_steps.Prelude.{Bool, List, ℕ}

pub record Float : Type 1 where
  pub F : Type 0
  pub of_ℕ : ℕ → F
  pub add : F → F → F
  pub mul : F → F → F
  pub div : F → F → F
  pub neg : F → F
  pub log2 : F → F
  pub sqrt : F → F
  pub less_eq : F → F → Bool
  pub equal : F → F → Bool
  pub sum : List F → F
