-- ===== src/WinErr/Map/High.antt =====
-- The table of winsup/internal/winerr_map.h: the entries from 5250 on.
use magiskboot_build.Prelude.{[], ◌∷◌, ◌++◌}
use magiskboot_build.Errno.{eio, no_error}
use magiskboot_build.WinErr.Runs.{Runs}

abbrev pub winerr_runs_5250 : Runs
winerr_runs_5250 = (150, no_error) ∷ []

abbrev pub winerr_runs_5400 : Runs
winerr_runs_5400 = (150, no_error) ∷ []

abbrev pub winerr_runs_5550 : Runs
winerr_runs_5550 = (150, no_error) ∷ []

abbrev pub winerr_runs_5700 : Runs
winerr_runs_5700 = (150, no_error) ∷ []

abbrev pub winerr_runs_5850 : Runs
winerr_runs_5850 = (150, no_error) ∷ []

abbrev pub winerr_runs_6000 : Runs
winerr_runs_6000 = (150, no_error) ∷ []

abbrev pub winerr_runs_6150 : Runs
winerr_runs_6150 = (150, no_error) ∷ []

abbrev pub winerr_runs_6300 : Runs
winerr_runs_6300 = (150, no_error) ∷ []

abbrev pub winerr_runs_6450 : Runs
winerr_runs_6450 = (150, no_error) ∷ []

abbrev pub winerr_runs_6600 : Runs
winerr_runs_6600 = (150, no_error) ∷ []

abbrev pub winerr_runs_6750 : Runs
winerr_runs_6750 = (150, no_error) ∷ []

abbrev pub winerr_runs_6900 : Runs
winerr_runs_6900 = (150, no_error) ∷ []

abbrev pub winerr_runs_7050 : Runs
winerr_runs_7050 = (150, no_error) ∷ []

abbrev pub winerr_runs_7200 : Runs
winerr_runs_7200 = (150, no_error) ∷ []

abbrev pub winerr_runs_7350 : Runs
winerr_runs_7350 = (150, no_error) ∷ []

abbrev pub winerr_runs_7500 : Runs
winerr_runs_7500 = (150, no_error) ∷ []

abbrev pub winerr_runs_7650 : Runs
winerr_runs_7650 = (150, no_error) ∷ []

abbrev pub winerr_runs_7800 : Runs
winerr_runs_7800 = (150, no_error) ∷ []

abbrev pub winerr_runs_7950 : Runs
winerr_runs_7950 = (150, no_error) ∷ []

abbrev pub winerr_runs_8100 : Runs
winerr_runs_8100 = (150, no_error) ∷ []

abbrev pub winerr_runs_8250 : Runs
winerr_runs_8250 = (91, no_error) ∷ (1, eio) ∷ (58, no_error) ∷ []

abbrev pub winerr_runs_8400 : Runs
winerr_runs_8400 = (150, no_error) ∷ []

abbrev pub winerr_runs_8550 : Runs
winerr_runs_8550 = (150, no_error) ∷ []

abbrev pub winerr_runs_8700 : Runs
winerr_runs_8700 = (150, no_error) ∷ []

abbrev pub winerr_runs_8850 : Runs
winerr_runs_8850 = (150, no_error) ∷ []

abbrev pub high_runs : Runs
high_runs =
    winerr_runs_5250 ++ winerr_runs_5400 ++ winerr_runs_5550 ++ winerr_runs_5700 ++ winerr_runs_5850
    ++ winerr_runs_6000 ++ winerr_runs_6150 ++ winerr_runs_6300 ++ winerr_runs_6450
    ++ winerr_runs_6600 ++ winerr_runs_6750 ++ winerr_runs_6900 ++ winerr_runs_7050
    ++ winerr_runs_7200 ++ winerr_runs_7350 ++ winerr_runs_7500 ++ winerr_runs_7650
    ++ winerr_runs_7800 ++ winerr_runs_7950 ++ winerr_runs_8100 ++ winerr_runs_8250
    ++ winerr_runs_8400 ++ winerr_runs_8550 ++ winerr_runs_8700 ++ winerr_runs_8850
