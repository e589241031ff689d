-- ===== src/Api/Examples.antt =====
-- Instances for src/ventus.cc.
use ventus_driver.Common.{ℕ, ◌≡◌, refl, false, none, some, List, [], ◌∷◌, arith}
use ventus_driver.Driver.Examples.{host}
use ventus_driver.Driver.{returns_value, Codes}
use ventus_driver.Api.{vt_memcopy}
use ventus_driver.Api.Upload.{vt_upload_kernel_bytes, stoul}
use ventus_driver.Api.Kernel.{NonZero, vt_upload_kernel_bytes-fails}
use ventus_driver.Api.Copy.{vt_memcopy-throws}

vt_memcopy-throws_example :
    returns_value (vt_memcopy (some host) 0x40000000 (some (λ i. i)) 4 0 0 1) ≡ false
vt_memcopy-throws_example = vt_memcopy-throws (some host) 0x40000000 (some (λ i. i)) 4 0 0 1

-- "0000001f", and "0x1f" behind a space.
abbrev word_text : List ℕ
word_text = 48 ∷ 48 ∷ 48 ∷ 48 ∷ 48 ∷ 48 ∷ 49 ∷ 102 ∷ []

words_parsed :
    (stoul word_text ≡ some 31)
    × (stoul (32 ∷ 48 ∷ 120 ∷ 49 ∷ 102 ∷ []) ≡ some 31)
    × (stoul (120 ∷ []) ≡ none)
unfolding stoul
words_parsed = (refl, refl, refl)

vt_upload_kernel_bytes-fails_example :
    Codes NonZero (vt_upload_kernel_bytes (some host) (some word_text) 8 0)
vt_upload_kernel_bytes-fails_example =
    vt_upload_kernel_bytes-fails (some host) (some word_text) 8 0 (omega arith)
