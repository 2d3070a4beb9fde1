-- ===== src/Weather/Tests.antt =====
-- Forecasts at concrete inputs; a number of tenths of a degree stands for a float.
use ai_assistant_driver.Common.{none, some, ℕ, ◌≡◌, refl, [], ◌∷◌, map, take, ◌==◌, codes, ok, err}
use ai_assistant_driver.Common.Int.{pos}
use ai_assistant_driver.Llm.{Tool}
use ai_assistant_driver.Llm.Ollama.{convert_tool}
use ai_assistant_driver.Llm.Declared.{Parameter, told, convert_tool-declare}
use ai_assistant_driver.Weather.Tool.{weather_tool}
use ai_assistant_driver.Weather.Data.{Raw, RawHourly, weather_description}
use ai_assistant_driver.Weather.{Client, WeatherAnswers, Floats, report, current_of, fetch_weather}
use ai_assistant_driver.Weather.Rows.{
  HourRow, DayRow, hour_columns, day_columns, described_hour, described_day, fetch_weather-rows,
}

abbrev tenths : Floats ℕ
tenths = record { is_zero = λ n. n == 0; default_latitude = 525; default_longitude = 134 }

abbrev noon : HourRow ℕ
noon = record { time = codes "12:00"; temperature = 214; weather_code = pos 61; precipitation = 80 }

abbrev today : DayRow ℕ
today = record {
  date = codes "2025-06-01";
  temperature_max = 231;
  temperature_min = 118;
  weather_code = pos 3;
  precipitation_sum = 12;
  sunrise = codes "05:10";
  sunset = codes "21:40";
}

abbrev raw_of : RawHourly ℕ → Raw ℕ
raw_of hours = record {
  latitude = 525;
  longitude = 134;
  timezone = codes "Europe/Berlin";
  current = record {
    temperature = 200;
    apparent_temperature = 195;
    humidity = pos 40;
    precipitation = 0;
    weather_code = pos 0;
    wind_speed = 33;
    wind_direction = pos 270;
    is_day = pos 1;
    uv_index = 41;
  };
  hourly = hours;
  daily = day_columns (today ∷ []);
}

abbrev answering : RawHourly ℕ → WeatherAnswers ℕ
answering hours = record {
  location = err (codes "no route");
  forecast = λ lat lon. ok (raw_of hours);
}

abbrev berlin : Client ℕ
berlin = record { latitude = 525; longitude = 134 }

rain_described : weather_description (pos 61) ≡ codes "Slight rain"
unfolding weather_description
rain_described = refl

fetch_weather-rows_example :
    fetch_weather (answering (hour_columns (noon ∷ []))) berlin
    ≡ report (record {
      location = record { lat = 525; lon = 134; timezone = codes "Europe/Berlin" };
      current = current_of (raw_of (hour_columns (noon ∷ []))).current;
      hourly = map described_hour (take 24 (noon ∷ []));
      daily = map described_day (today ∷ []);
    })
fetch_weather-rows_example =
    fetch_weather-rows (answering (hour_columns (noon ∷ []))) berlin
      (raw_of (hour_columns (noon ∷ []))) (noon ∷ []) (today ∷ []) refl refl refl

-- The tool of the program.
abbrev the_tool : Tool ℕ
the_tool = weather_tool {F = ℕ} (λ data_of. ok (codes "{}")) (λ w. (w, err (codes "unreachable")))

abbrev location : Parameter
location = record {
  name = codes "location";
  type = codes "string";
  description = codes "Optional location override (city name)";
}

convert_tool-declare_example : convert_tool the_tool ≡ record {
  type = codes "function";
  name = the_tool.name;
  description = the_tool.description;
  parameters_type = codes "object";
  properties = some (told location ∷ []);
  required = [];
}
unfolding weather_tool
convert_tool-declare_example = convert_tool-declare the_tool (location ∷ []) none refl
