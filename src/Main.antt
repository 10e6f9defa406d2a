-- ===== src/Main.antt =====
-- user_boot/app/src/main.c: from the start of the chip to the upgrade or to the application.
pub mod Laws
pub mod Upgrade
mod Tests
use fw_bootloader.Common.{
  ℕ, ◌%◌, ◌^◌, List, [], ◌∷◌, ◌++◌, Bool, true, false, Option, ◌||◌, not, ◌==◌, if◌then◌else◌, u8,
}
use fw_bootloader.Common.Memory.{Result, ok, fault, ◌>>=◌, load}
use fw_bootloader.Platform.{Platform, Build}
use fw_bootloader.Device.{Device}
use fw_bootloader.Magic.{uboot_check_upgrade_magic}
use fw_bootloader.Boot.{Outcome, returned, serving, copying, resetting, user_check_upgrade}
use fw_bootloader.Debug.{Line, entered, reti, rets, ssp, usp, dump}

-- What the libraries answer at the start: the two arrays and the number that `dec_isd_cfg_ini` leaves for
-- PLL_SRC, UTTX and UTBD, and the result of `jlfs_mount`. `debug` is whether __DEBUG is defined.
pub record Config : Type 0 where
  pub pll_src : List ℕ
  pub uttx : List ℕ
  pub ut_baud : ℕ
  pub mount : ℕ
  pub debug : Bool

pub data Call : Type 0 where
  uboot_mask_init irq_init arch_init jlfs_mount sfc_mode_boot : Call
  sys_clk_init : ℕ → ℕ → Call
  uart_init : List ℕ → ℕ → Call
  enter_upgrade jl_check_upgrade : ℕ → Call

-- Where `main` is: in the upgrade, which does not return or has not returned yet, or behind `sfc_mode_boot`.
pub data Stage : Type 0 where
  upgrading : Outcome → Stage
  booted : Stage

-- `exception_analyze` for the chips without one of their own; it ends in an endless loop.
pub weak_exception_analyze : List ℕ → Result (List Line)
weak_exception_analyze sp = do
  reti_value ← load sp 16
  rete_value ← load sp 17
  retx_value ← load sp 18
  rets_value ← load sp 19
  psr_value ← load sp 20
  icfg_value ← load sp 21
  usp_value ← load sp 22
  ssp_value ← load sp 23
  registers ← dump sp 16 0
  ok (entered ∷ reti reti_value ∷ rets rets_value ∷ ssp ssp_value ∷ usp usp_value ∷ registers)

-- `strcmp(a, b) == 0`
pub same_string : List ℕ → List ℕ → Result Bool
same_string [] b = fault
same_string (x ∷ xs) [] = fault
same_string (x ∷ xs) (y ∷ ys) =
    let rest = same_string xs ys in if x == y then (if x == 0 then ok true else rest) else ok false

abbrev pub lrc : List ℕ
lrc = b'L' ∷ b'R' ∷ b'C' ∷ 0 ∷ []

-- The calls up to `jlfs_mount`.
abbrev pub early : Config → Bool → List Call
early cfg is_lrc =
    (if cfg.debug then uboot_mask_init ∷ [] else [])
    ++ (sys_clk_init (if is_lrc then 0 else 24000000) 48000000
        ∷ ((if cfg.debug then uart_init cfg.uttx cfg.ut_baud ∷ [] else [])
            ++ (irq_init ∷ arch_init ∷ jlfs_mount ∷ [])))

module _ {Fs : Type 0} (p : Platform Fs) (build : Build) where
  abbrev pub boot : ℕ → List Call → Device Fs → Result (List Call × Stage × Device Fs)
  boot err calls dev = ok (calls ++ (jl_check_upgrade err ∷ sfc_mode_boot ∷ []), booted, dev)

  abbrev pub after_upgrade :
      ℕ → List Call → Outcome → Device Fs → Result (List Call × Stage × Device Fs)
  after_upgrade err calls (returned r) dev = boot err calls dev
  after_upgrade err calls serving dev = ok (calls, upgrading serving, dev)
  after_upgrade err calls resetting dev = ok (calls, upgrading resetting, dev)
  after_upgrade err calls copying dev = ok (calls, upgrading copying, dev)

  pub upgrade_or_boot :
      ℕ
      → Bool
      → List Call
      → ℕ
      → List (Option (List ℕ × ℕ))
      → Device Fs
      → Result (List Call × Stage × Device Fs)
  upgrade_or_boot err wanted calls rounds inputs dev =
      if wanted
      then (do
        (out, dev1) ← user_check_upgrade p build rounds inputs dev
        after_upgrade err (calls ++ enter_upgrade err ∷ []) out dev1)
      else boot err calls dev

  pub main :
      Config → ℕ → List (Option (List ℕ × ℕ)) → Device Fs → Result (List Call × Stage × Device Fs)
  unfolding same_string upgrade_or_boot
  main cfg rounds inputs dev = do
    is_lrc ← same_string cfg.pll_src lrc
    let err = u8 cfg.mount
    let calls = early cfg is_lrc
    if build.use_upgrade_magic
        then (do
          (found, nvram) ← uboot_check_upgrade_magic dev.nvram
          upgrade_or_boot err (not (found == 0) || not (err == 0)) calls rounds inputs
              (record dev { nvram = nvram }))
        else boot err calls dev
