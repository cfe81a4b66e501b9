-- ===== src/Fs/Copies.antt =====
-- Copies of files.
use mathlib.Core.Option
use arcade_os.Base.{Option}
use arcade_os.Fs.{Code, done, failed}

abbrev copy_code : Code → Code
copy_code (done n) = done 0
copy_code (failed n) = failed 2
