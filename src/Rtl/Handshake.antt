-- ===== src/Rtl/Handshake.antt =====
-- The valid/ready handshake between the units of the core, as the storage cells of rtl/common
-- implement it: what a stage shows between two clock edges and what it does at an edge, and the
-- queue that a stage stands for.
pub mod Flow
use len5_core.Common.{
  ℕ, zero, suc, ◌+◌, ◌-◌, ◌*◌, ◌/◌, ◌%◌, ◌^◌, ◌≤◌, ◌<◌, ◌≡◌, refl, sym, ap, ◌∙◌, ◌≢◌, ◌↔◌, ◌⊎◌, inl,
  inr, Bool, true, false, not, ◌&&◌, ◌||◌, Option, none, some, List, [], ◌∷◌, ◌++◌, map, arith,
  dec_lt, ℕ_discrete, ltb, leb, ◌==◌, if◌then◌else◌, ◌>>=◌, Bool-cases, Option-cases, some_inj,
  length, get_or, set, take, drop, replicate, All,
}

-- What a stage reads at a clock edge with `rst_ni` high.
pub record Inputs (A : Type 0) : Type 0 where
  pub flush_i : Bool
  pub valid_i : Bool
  pub ready_i : Bool
  pub data_i : A

-- The operations of a stage with registers `S`: the registers under reset, the outputs, and the
-- registers after a rising edge of the clock. Only `ready_o` sees an input, the flush.
pub record Stage (S A : Type 0) : Type 0 where
  pub reset : S
  pub valid_o : S → Bool
  pub ready_o : S → (flush_i : Bool) → Bool
  pub data_o : S → A
  pub edge : S → Inputs A → S

abbrev pub is_empty {ℓ} : {A : Type ℓ} → List A → Bool
is_empty [] = true
is_empty (x ∷ xs) = false

-- The items that a queue keeps at an edge.
unfoldable pub after {ℓ} : {A : Type ℓ} → (popped pushed : Bool) → A → List A → List A
after popped pushed x q = (if popped then drop 1 q else q) ++ (if pushed then x ∷ [] else [])

module _ {S A : Type 0} (stage : Stage S A) where
  -- A transfer at the input and a transfer at the output.
  abbrev pub pushes : S → Inputs A → Bool
  pushes s i = i.valid_i && stage.ready_o s i.flush_i

  abbrev pub pops : S → Inputs A → Bool
  pops s i = stage.valid_o s && i.ready_i

  -- A stage is a queue of at most `capacity` items.
  pub record Refines : Type 1 where
    pub capacity : ℕ
    pub Represents : S → List A → Type 0
    pub represents_reset : Represents stage.reset []
    pub represents_bound : (s : S) (q : List A) → Represents s q → length q ≤ capacity
    pub represents_ready :
        (s : S) (q : List A) (f : Bool)
        → Represents s q
        → stage.ready_o s f ≡ true
        → length q < capacity
    pub represents_valid :
        (s : S) (q : List A) → Represents s q → stage.valid_o s ≡ not (is_empty q)
    pub represents_data : (s : S) (x : A) (q : List A) → Represents s (x ∷ q) → stage.data_o s ≡ x
    pub represents_edge :
        (s : S) (q : List A) (i : Inputs A)
        → Represents s q
        → i.flush_i ≡ false
        → Represents (stage.edge s i) (after (pops s i) (pushes s i) i.data_i q)

  -- What crosses the input and the output of a stage while the clock runs.
  unfoldable pub accepted : S → List (Inputs A) → List A
  accepted s [] = []
  accepted s (i ∷ is) = (if pushes s i then i.data_i ∷ [] else []) ++ accepted (stage.edge s i) is

  unfoldable pub delivered : S → List (Inputs A) → List A
  delivered s [] = []
  delivered s (i ∷ is) =
      (if pops s i then stage.data_o s ∷ [] else []) ++ delivered (stage.edge s i) is

  unfoldable pub final : S → List (Inputs A) → S
  final s [] = s
  final s (i ∷ is) = final (stage.edge s i) is
