-- ===== src/Driver.antt =====
-- src/driver.h, class Driver: the contexts of the host, their kernels, and the processor with its
-- memory. An operation ends with a value, with an exception (VT_ERROR throws), at a step with no
-- defined meaning, or not within its fuel; the state stays as it was when the exception was thrown.
-- A std::map is a list of pairs in the order of its keys. An int is kept modulo `2 ^ 32`, a task's
-- number modulo `2 ^ 64`.
pub mod Maps
pub mod Buffers
pub mod Kernels
pub mod Reports
pub mod Contexts
pub mod Attach
pub mod Alloc
pub mod Blocks
pub mod Copy
pub mod Examples
use ventus_driver.Common.{
  ℕ, ◌≡◌, Bool, true, false, Option, none, some, List, [], ◌∷◌, Status, done, failed, if◌then◌else◌,
}
use ventus_driver.PhysicalMemory.{PhysicalMemory}
use ventus_driver.Manager.{Manager, empty_manager}
use ventus_driver.MemController.{MemController}
use ventus_driver.Processor.Ports.{Device, Inputs}
use ventus_driver.Processor.{Processor}
use ventus_driver.Processor

-- `krl::State`, of a block and of a kernel.
pub data State : Type 0 where
  unfinish finish : State

-- `krl::Info`.
pub record Kernel : Type 0 where
  pub blk_list : List (ℕ × State)
  pub state : State

-- `ctx::Info`.
pub record Context : Type 0 where
  pub ctx_id : ℕ
  pub krl_list : List (ℕ × Kernel)
  pub root : ℕ

abbrev pub new_context : ℕ → Context
new_context task_id = record { ctx_id = task_id; krl_list = []; root = 0 }

all_finished : List (ℕ × Kernel) → Bool
all_finished [] = true
all_finished ((k, i) ∷ ks) = elim i.state [ unfinish ↦ false | finish ↦ all_finished ks ]

pub context_finished : Context → Bool
unfolding all_finished
context_finished c = all_finished c.krl_list

-- `m_last_task_` is left out: nothing makes it valid.
pub record Driver (D : Device) : Type 0 where
  pub processor : Processor D
  pub finished_kernels : List ℕ
  pub addr_mng : Manager
  pub contexts : List (ℕ × Context)

pub data Result {ℓ κ} (S : Type ℓ) (A : Type κ) : Type (ℓ ⊔ κ) where
  returned : S → A → Result S A
  thrown : S → Result S A
  undefined : Result S A
  unfinished : Result S A

-- Whether a call comes back to its caller with a value.
abbrev pub returns_value {ℓ κ} : {S : Type ℓ} {A : Type κ} → Result S A → Bool
returns_value (returned s a) = true
returns_value (thrown s) = false
returns_value undefined = false
returns_value unfinished = false

-- What holds of the value that a call returns, if it returns.
pub data Codes {ℓ κ μ} {S : Type ℓ} {A : Type κ} (P : A → Type μ)
    : Result S A → Type (ℓ ⊔ κ ⊔ μ) where
  code : (s : S) (a : A) → P a → Codes P (returned s a)
  threw : (s : S) → Codes P (thrown s)
  no_meaning : Codes P undefined
  no_end : Codes P unfinished

infixl 5 ◌|>◌
abbrev pub ◌|>◌ {ℓ κ μ} :
    {S : Type ℓ} {A : Type κ} {B : Type μ} → Result S A → (S → A → Result S B) → Result S B
returned s a |> k = k s a
thrown s |> k = thrown s
undefined |> k = undefined
unfinished |> k = unfinished

-- A step with a defined result, or not.
abbrev pub defined {ℓ κ μ} :
    {S : Type ℓ} {A : Type κ} {B : Type μ} → Option B → (B → Result S A) → Result S A
defined none k = undefined
defined (some b) k = k b

-- A step that throws where it has no result.
abbrev pub or_throw {ℓ κ μ} :
    {S : Type ℓ} {A : Type κ} {B : Type μ} → S → Option B → (B → Result S A) → Result S A
or_throw s none k = thrown s
or_throw s (some b) k = k b

-- The constructor.
abbrev pub new_driver : {D : Device} → D.State → Inputs → MemController → Driver D
new_driver {D} s ports m = record {
  processor = Processor.boot D s ports m;
  finished_kernels = [];
  addr_mng = empty_manager;
  contexts = [];
}

abbrev pub with_ram : {D : Device} → Driver D → PhysicalMemory → Driver D
with_ram d pm = record d { processor = record d.processor { ram = pm } }
