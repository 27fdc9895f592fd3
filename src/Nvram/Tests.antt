-- ===== src/Nvram/Tests.antt =====
-- Runs of the NVRAM at concrete inputs.
use em68030_win_ui3cpp.Common.{ℕ, replicate}
use em68030_win_ui3cpp.Common.Int.{pos}
use em68030_win_ui3cpp.Nvram.Device.{Calendar, Nvram}

abbrev noon : Calendar
noon = record {
  tm_sec = 59;
  tm_min = 0;
  tm_hour = 12;
  tm_wday = 0;
  tm_mday = 31;
  tm_mon = 11;
  tm_year = pos 126;
}

abbrev always_noon : ℕ → Calendar
always_noon i = noon

abbrev blank : Nvram
blank = record { nvram = replicate 2048 0; year_offset = pos 68 }
