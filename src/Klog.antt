-- ===== src/Klog.antt =====
-- src/klog.c: the kernel log. `klog_buf[0 .. klog_len)` is the list `text`.
pub mod Recent
mod Tests
use arcade_os.Base.{
  ℕ, suc, ◌+◌, ◌-◌, ◌%◌, ◌^◌, Bool, true, false, not, ◌&&◌, ◌||◌, List, [], ◌∷◌, ◌++◌, ltb, leb,
  ◌==◌, if◌then◌else◌, take, drop, length,
}

abbrev pub klog_cap : ℕ
klog_cap = 32768

-- `KLOG_CAP / 2`
abbrev pub half_cap : ℕ
half_cap = 16384

abbrev pub klog_flush_ms : ℕ
klog_flush_ms = 2000

pub record Klog : Type 0 where
  pub text : List ℕ
  pub klog_dirty : Bool
  pub flushing : Bool
  pub last_flush : ℕ

-- A full log drops its older half, but never while it is being written to the disk.
pub klog_putc : ℕ → Klog → Klog
klog_putc c k =
    if c == 13
    then k
    else if leb klog_cap (length k.text)
    then (if k.flushing
        then k
        else record k { text = drop half_cap k.text ++ c ∷ []; klog_dirty = true })
    else record k { text = k.text ++ c ∷ []; klog_dirty = true }

pub klog_read : ℕ → Klog → List ℕ
klog_read maxlen k = take maxlen k.text

-- The calls of fat32.c that the flushes make, on a volume.
pub record Saver (Volume : Type 0) : Type 0 where
  pub available : Volume → Bool
  pub busy : Volume → Bool
  pub save : List ℕ → Volume → Volume

module _ {Volume : Type 0} (saver : Saver Volume) where
  pub klog_panic_flush : Klog → Volume → Klog × Volume
  klog_panic_flush k v =
      if not (saver.available v) || saver.busy v
      then (k, v)
      else (record k { flushing = false; klog_dirty = false }, saver.save k.text v)

  -- `now` is `system_ticks`.
  pub klog_idle_flush : ℕ → Klog → Volume → Klog × Volume
  klog_idle_flush now k v =
      if not k.klog_dirty
        || (not (saver.available v)
            || (ltb ((now + 2 ^ 32 - k.last_flush) % 2 ^ 32) klog_flush_ms || saver.busy v))
      then (k, v)
      else (
        record k { flushing = false; klog_dirty = false; last_flush = now },
        saver.save k.text v,
      )
