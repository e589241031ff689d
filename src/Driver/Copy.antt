-- ===== src/Driver/Copy.antt =====
-- Driver::upload and download of src/driver.h, one after the other.
use ventus_driver.Common.{ℕ, ◌+◌, ◌%◌, ◌^◌, ◌<◌, ◌≡◌, refl, true, false, some, ◌==◌, arith, done}
use ventus_driver.Sv39.{page_size}
use ventus_driver.Block.Bytes.{Buffer, splice}
use ventus_driver.PhysicalMemory.{PhysicalMemory}
use ventus_driver.PhysicalMemory.Data.Ranges.{spans}
use ventus_driver.Memory.Access.{read_virt, write_virt}
use ventus_driver.Memory.Tables.{Role, top, Tables, Mapped}
use ventus_driver.Memory.Contents.{InPage}
use ventus_driver.Memory.Transfer.{written, read_virt-write_virt}
use ventus_driver.Processor.Ports.{Device}
use ventus_driver.Driver.{Driver, Context, returned, with_ram}
use ventus_driver.Driver.Maps.{find}
use ventus_driver.Driver.Buffers.{upload, download}

module _ {D : Device} where
  upload-writes :
      (d : Driver D) (c : Context) (v size task_id kernel_id : ℕ) (src : Buffer)
      (pm : PhysicalMemory)
      → find d.contexts task_id ≡ some c
      → 0 < size
      → write_virt d.processor.ram c.root v size src ≡ some (done, pm)
      → upload d v (some src) size task_id kernel_id ≡ returned (with_ram d pm) 0
  unfolding upload
  upload-writes d c v size task_id kernel_id src pm e pos f =
      let some_bytes : (size == 0) ≡ false = ground arith in rw (upload, e, some_bytes, f) refl

  download-reads :
      (d : Driver D) (c : Context) (v size task_id kernel_id : ℕ) (dst out : Buffer)
      → find d.contexts task_id ≡ some c
      → 0 < size
      → read_virt d.processor.ram c.root v size dst ≡ some (done, out)
      → download d v (some dst) size task_id kernel_id ≡ returned d (0, out)
  unfolding download
  download-reads d c v size task_id kernel_id dst out e pos f =
      let some_bytes : (size == 0) ≡ false = ground arith in rw (download, e, some_bytes, f) refl

  -- What was uploaded to a mapped address of a context, inside a page of data, is what a download from
  -- there gives the host, and the rest of its buffer stays.
  pub download-upload :
      {role : ℕ → Role} (d : Driver D) (c : Context) (v pa size task_id : ℕ) (src dst : Buffer)
      → Tables role d.processor.ram
      → find d.contexts task_id ≡ some c
      → role c.root ≡ top
      → Mapped d.processor.ram c.root v pa
      → 0 < pa
      → 0 < size
      → InPage role pa (pa + v % page_size) size
      → spans d.processor.ram.blocks (pa + v % page_size) size ≡ true
      → v < 2 ^ 39
      → (kernel_id kernel_id' : ℕ)
      → (d' : Driver D) × (upload d v (some src) size task_id kernel_id ≡ returned d' 0)
        × Tables role d'.processor.ram
        × (download d' v (some dst) size task_id kernel_id'
            ≡ returned d' (0, splice dst 0 size src))
  download-upload {role} d c v pa size task_id src dst ts e is_root m pos some_bytes page held low
        kernel_id kernel_id' =
      let (writes, ts', m', reads) =
        read_virt-write_virt ts c.root v pa size is_root m pos some_bytes page held low src dst in
      let d' =
        with_ram d (written ts c.root v pa size is_root m pos some_bytes page held low src) in
      (
        d',
        upload-writes d c v size task_id kernel_id src _ e some_bytes writes,
        ts',
        download-reads d' c v size task_id kernel_id' dst _ e some_bytes reads,
      )
