-- ===== src/PythonJson/Tests.antt =====
-- A text with a quote, a letter outside ASCII and one outside the basic plane.
use state_driven_agent.Common.{◌≡◌, refl}
use state_driven_agent.PythonJson.{python_json_string}
use state_driven_agent.PythonJson.Ascii.{ArePlain, python_json_string-ArePlain}

python_json_string-ArePlain_example : ArePlain (python_json_string "\"é😀")
python_json_string-ArePlain_example = python_json_string-ArePlain "\"é😀"

spelled : python_json_string "\"é😀" ≡ "\"\\\"\\u00e9\\ud83d\\ude00\""
unfolding python_json_string
spelled = refl
