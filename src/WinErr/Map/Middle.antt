-- ===== src/WinErr/Map/Middle.antt =====
-- The table of winsup/internal/winerr_map.h: the entries from 1350 to 5249.
use magiskboot_build.Prelude.{[], ◌∷◌, ◌++◌}
use magiskboot_build.Errno.{eagain, ebusy, eexist, efbig, einval, eio, enolink, no_error}
use magiskboot_build.WinErr.Runs.{Runs}

abbrev pub winerr_runs_1350 : Runs
winerr_runs_1350 =
    (42, no_error)
    ∷ (1, eexist)
    ∷ (1, eio)
    ∷ (56, no_error)
    ∷ (1, efbig)
    ∷ (5, eagain)
    ∷ (4, no_error)
    ∷ (1, ebusy)
    ∷ (39, no_error)
    ∷ []

abbrev pub winerr_runs_1500 : Runs
winerr_runs_1500 = (150, no_error) ∷ []

abbrev pub winerr_runs_1650 : Runs
winerr_runs_1650 = (150, no_error) ∷ []

abbrev pub winerr_runs_1800 : Runs
winerr_runs_1800 = (16, no_error) ∷ (1, eio) ∷ (133, no_error) ∷ []

abbrev pub winerr_runs_1950 : Runs
winerr_runs_1950 = (150, no_error) ∷ []

abbrev pub winerr_runs_2100 : Runs
winerr_runs_2100 = (102, no_error) ∷ (1, einval) ∷ (47, no_error) ∷ []

abbrev pub winerr_runs_2250 : Runs
winerr_runs_2250 = (1, enolink) ∷ (149, no_error) ∷ []

abbrev pub winerr_runs_2400 : Runs
winerr_runs_2400 = (1, no_error) ∷ (2, eagain) ∷ (1, no_error) ∷ (1, eagain) ∷ (145, no_error) ∷ []

abbrev pub winerr_runs_2550 : Runs
winerr_runs_2550 = (150, no_error) ∷ []

abbrev pub winerr_runs_2700 : Runs
winerr_runs_2700 = (150, no_error) ∷ []

abbrev pub winerr_runs_2850 : Runs
winerr_runs_2850 = (150, no_error) ∷ []

abbrev pub winerr_runs_3000 : Runs
winerr_runs_3000 = (150, no_error) ∷ []

abbrev pub winerr_runs_3150 : Runs
winerr_runs_3150 = (150, no_error) ∷ []

abbrev pub winerr_runs_3300 : Runs
winerr_runs_3300 = (150, no_error) ∷ []

abbrev pub winerr_runs_3450 : Runs
winerr_runs_3450 = (150, no_error) ∷ []

abbrev pub winerr_runs_3600 : Runs
winerr_runs_3600 = (150, no_error) ∷ []

abbrev pub winerr_runs_3750 : Runs
winerr_runs_3750 = (150, no_error) ∷ []

abbrev pub winerr_runs_3900 : Runs
winerr_runs_3900 = (150, no_error) ∷ []

abbrev pub winerr_runs_4050 : Runs
winerr_runs_4050 = (150, no_error) ∷ []

abbrev pub winerr_runs_4200 : Runs
winerr_runs_4200 = (150, no_error) ∷ []

abbrev pub winerr_runs_4350 : Runs
winerr_runs_4350 = (150, no_error) ∷ []

abbrev pub winerr_runs_4500 : Runs
winerr_runs_4500 = (150, no_error) ∷ []

abbrev pub winerr_runs_4650 : Runs
winerr_runs_4650 = (150, no_error) ∷ []

abbrev pub winerr_runs_4800 : Runs
winerr_runs_4800 = (150, no_error) ∷ []

abbrev pub winerr_runs_4950 : Runs
winerr_runs_4950 = (150, no_error) ∷ []

abbrev pub winerr_runs_5100 : Runs
winerr_runs_5100 = (150, no_error) ∷ []

abbrev pub middle_runs : Runs
middle_runs =
    winerr_runs_1350 ++ winerr_runs_1500 ++ winerr_runs_1650 ++ winerr_runs_1800 ++ winerr_runs_1950
    ++ winerr_runs_2100 ++ winerr_runs_2250 ++ winerr_runs_2400 ++ winerr_runs_2550
    ++ winerr_runs_2700 ++ winerr_runs_2850 ++ winerr_runs_3000 ++ winerr_runs_3150
    ++ winerr_runs_3300 ++ winerr_runs_3450 ++ winerr_runs_3600 ++ winerr_runs_3750
    ++ winerr_runs_3900 ++ winerr_runs_4050 ++ winerr_runs_4200 ++ winerr_runs_4350
    ++ winerr_runs_4500 ++ winerr_runs_4650 ++ winerr_runs_4800 ++ winerr_runs_4950
    ++ winerr_runs_5100
