-- ===== src/Library.antt =====
-- source/nsvr.cpp and include/nsvr.hpp. `listModules` is that of a 64-bit Windows; elsewhere it does
-- nothing. The default server of the file is used by nothing.
pub mod Modules
use nsvr.Prelude.{
  zero, suc, true, false, none, some, leb, is_some, ◌*◌, ◌/◌, ◌%◌, ◌^◌, ℕ, Bytes, codes, ◌++◌,
  is_empty, not, if◌then◌else◌,
}
use nsvr.Env.{
  Env, undefined, read_beyond_modules, enum_process_modules, get_module_file_name, gst_registry_get,
  gst_registry_scan_path,
}
use nsvr.Env.Monad.{M, done, ◌>>=◌, ◌>>◌, ask, call, log, for_some, when}
use nsvr.Internal.System.{gstreamer_initialized}
use nsvr.Packet.Number.{show_ℕ}

-- The numbers of the headers of GStreamer that the library was built with.
pub record GstVersion : Type 0 where
  pub major : ℕ
  pub minor : ℕ
  pub micro : ℕ
  pub nano : ℕ

-- NSVR_VERSION_MAJOR, MINOR and PATCH are 1, 0 and 0.
unfoldable pub get_version : GstVersion → Bytes
get_version v =
    codes "1.0.0_"
    ++ (show_ℕ v.major
        ++ (codes "."
            ++ (show_ℕ v.minor ++ (codes "." ++ (show_ℕ v.micro ++ (codes "." ++ show_ℕ v.nano))))))

-- The array `hMods` has room for this many handles.
abbrev pub modules_room : ℕ
modules_room = 2056

module _ {A : Type 0} (env : Env) where
  unfoldable pub add_plugin_path : Bytes → M A (Unit {0})
  add_plugin_path path = if is_empty path then log else do
    ready ← gstreamer_initialized env
    if not ready then log else do
      registry ← ask env.registry gst_registry_get
      when registry (call (gst_registry_scan_path path))

  list_one : ℕ → M A (Unit {0})
  list_one i = do
    when (leb modules_room i) (call (undefined read_beyond_modules))
    name ← ask env.module_name (get_module_file_name i)
    when (is_some name) log

  -- The rounds of the loop from index i on, so many as are left.
  list_from : ℕ → ℕ → M A (Unit {0})
  unfolding list_one
  list_from i zero = done
  list_from i (suc n) = do list_one i; list_from (suc i) n

  -- A handle is 8 bytes long, and `cbNeeded` has 32 bits.
  unfoldable pub list_modules : M A (Unit {0})
  unfolding list_from
  list_modules = do
    log
    needed ← ask env.modules_size (enum_process_modules (8 * modules_room))
    for_some needed (λ n. list_from 0 (n % 2 ^ 32 / 8))
    log
