-- ===== src/Api/Copy.antt =====
-- vt_memcopy of src/ventus.cc.
use ventus_driver.Common.{ℕ, ◌≡◌, refl, false, Option, ◌==◌, Bool-cases, inl, inr}
use ventus_driver.Block.Bytes.{Buffer}
use ventus_driver.Processor.Ports.{Device}
use ventus_driver.Driver.{
  Driver, Result, returned, thrown, undefined, unfinished, ◌|>◌, returns_value,
}
use ventus_driver.Api.{vt_memcopy, vt_copy_from_dev, vt_copy_to_dev, unreachable}

module _ {D : Device} where
  never {κ} :
      {A : Type κ} (r : Result (Option (Driver D)) A) → returns_value (r |> unreachable) ≡ false
  never (returned s a) = refl
  never (thrown s) = refl
  never undefined = refl
  never unfinished = refl

  -- `vt_memcopy` never comes back to its caller, also after a copy that went well.
  pub vt_memcopy-throws :
      (h : Option (Driver D)) (dev_vaddr : ℕ) (host : Option Buffer)
      (size task_id kernel_id type : ℕ)
      → returns_value (vt_memcopy h dev_vaddr host size task_id kernel_id type) ≡ false
  unfolding vt_memcopy
  vt_memcopy-throws h dev_vaddr host size task_id kernel_id type = elim (Bool-cases (type == 1)) [
    | inl e ↦ rw e (never (vt_copy_from_dev h dev_vaddr host size task_id kernel_id))
    | inr e ↦ elim (Bool-cases (type == 0)) [
      | inl f ↦ rw (e, f) (never (vt_copy_to_dev h dev_vaddr host size task_id kernel_id))
      | inr f ↦ rw (e, f) refl
    ]
  ]
