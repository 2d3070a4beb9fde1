-- ===== src/Llm/Reports.antt =====
-- The shape of Execute of the program's tools, which all ask their client and hand on what
-- encoding/json makes of the answer; the arguments are not read.
use ai_assistant_driver.Common.{Text, Result, ◌>>=◌}
use ai_assistant_driver.Llm.{Arguments}

-- `ask` is the client's method, taken where it returns; a panic in it ends the process, and with it all
-- that is modelled here.
unfoldable pub report_of :
    {W A : Type 0}
    → (A → Result Text Text)
    → (W → W × Result Text A)
    → Arguments
    → W
    → W × Result Text Text
report_of marshal ask args w = let (w', answer) = ask w in (w', answer >>= marshal)
