-- ===== src/Weather.antt =====
-- internal/tools/weather/client.go and weather_tool.go: the forecast, from what two services answer.
-- `F` is float64, of which the code only asks whether it is zero. The columns that open-meteo sends
-- are lists of their own, so an index may be out of range, which panics: `none`.
use ai_assistant_driver.Common.{
  ℕ, zero, suc, ◌+◌, ◌-◌, Bool, true, false, ◌&&◌, Option, none, some, List, [], ◌∷◌, ltb, ◌==◌,
  if◌then◌else◌, length, get_elem?, Text, codes, Result, ok, err,
}
use ai_assistant_driver.Common.Int.{ℤ, pos, negsuc}
use ai_assistant_driver.Weather.Data.{
  Current, Hourly, Daily, WeatherData, RawCurrent, RawHourly, RawDaily, Raw, weather_description,
}
pub mod Data
pub mod Columns
pub mod Rows
pub mod Located
pub mod Tool
pub mod Web
mod Tests

-- An index that is out of range ends the whole.
infixl 5 ◌>>=◌
abbrev pub ◌>>=◌ : {A B : Type 0} → Option A → (A → Option B) → Option B
none >>= f = none
some a >>= f = f a

unfoldable pub is_one : ℤ → Bool
is_one (pos n) = n == 1
is_one (negsuc n) = false

module _ {F : Type 0} where
  abbrev pub current_of : RawCurrent F → Current F
  current_of raw = record {
    temperature = raw.temperature;
    apparent_temperature = raw.apparent_temperature;
    humidity = raw.humidity;
    wind_speed = raw.wind_speed;
    wind_direction = raw.wind_direction;
    weather_code = raw.weather_code;
    weather_description = weather_description raw.weather_code;
    is_day = is_one raw.is_day;
    uv_index = raw.uv_index;
    precipitation = raw.precipitation;
  }

  unfoldable pub hourly_at : RawHourly F → ℕ → Option (Hourly F)
  hourly_at raw i = do
    time ← get_elem? raw.time i
    temperature ← get_elem? raw.temperature i
    code ← get_elem? raw.weather_code i
    precipitation ← get_elem? raw.precipitation i
    some (record {
      time = time;
      temperature = temperature;
      weather_code = code;
      weather_description = weather_description code;
      precipitation = precipitation;
    })

  unfoldable pub daily_at : RawDaily F → ℕ → Option (Daily F)
  daily_at raw i = do
    date ← get_elem? raw.time i
    temperature_max ← get_elem? raw.temperature_max i
    temperature_min ← get_elem? raw.temperature_min i
    code ← get_elem? raw.weather_code i
    precipitation_sum ← get_elem? raw.precipitation_sum i
    sunrise ← get_elem? raw.sunrise i
    sunset ← get_elem? raw.sunset i
    some (record {
      date = date;
      temperature_max = temperature_max;
      temperature_min = temperature_min;
      weather_code = code;
      weather_description = weather_description code;
      precipitation_sum = precipitation_sum;
      sunrise = sunrise;
      sunset = sunset;
    })

-- A loop that appends what it finds at `i`, `i + 1`, … below `n`, at most `k` times.
unfoldable pub collect : {A : Type 0} → (ℕ → Option A) → ℕ → ℕ → ℕ → Option (List A)
collect found n zero i = some []
collect found n (suc k) i =
    let rest = collect found n k (suc i) in
    if ltb i n then (do x ← found i; xs ← rest; some (x ∷ xs)) else some []

-- The ends of GetWeather: an error, a panic, the forecast.
pub data FetchError : Type 0 where
  request_failed read_failed parse_failed : Text → FetchError

pub data Report (F : Type 0) : Type 0 where
  failed : FetchError → Report F
  panicked : Report F
  report : WeatherData F → Report F

pub record Client (F : Type 0) : Type 0 where
  pub latitude : F
  pub longitude : F

-- What ip-api.com and open-meteo.com answer, the second for a place.
pub record WeatherAnswers (F : Type 0) : Type 0 where
  pub location : Result Text (F × F)
  pub forecast : F → F → Result FetchError (Raw F)

-- The zero test of float64 and the two constants.
pub record Floats (F : Type 0) : Type 0 where
  pub is_zero : F → Bool
  pub default_latitude : F
  pub default_longitude : F

module _ {F : Type 0} where
  unfoldable pub hourly : RawHourly F → Option (List (Hourly F))
  unfolding collect hourly_at
  hourly raw = collect (hourly_at raw) (length raw.time) 24 0

  unfoldable pub daily : RawDaily F → Option (List (Daily F))
  unfolding collect daily_at
  daily raw = collect (daily_at raw) (length raw.time) (length raw.time) 0

  unfoldable pub weather_of : Raw F → Option (WeatherData F)
  unfolding hourly daily
  weather_of raw = do
    hours ← hourly raw.hourly
    days ← daily raw.daily
    some (record {
      location = record { lat = raw.latitude; lon = raw.longitude; timezone = raw.timezone };
      current = current_of raw.current;
      hourly = hours;
      daily = days;
    })

  unfoldable pub fetch_weather : WeatherAnswers F → Client F → Report F
  unfolding weather_of
  fetch_weather answers c = elim (answers.forecast c.latitude c.longitude) [
    | err e ↦ failed e
    | ok raw ↦ elim (weather_of raw) [ none ↦ panicked | some data_of ↦ report data_of ]
  ]

module _ {F : Type 0} (floats : Floats F) where
  -- `latitude == 0 && longitude == 0`
  abbrev pub is_nowhere : F → F → Bool
  is_nowhere lat lon = floats.is_zero lat && floats.is_zero lon

  unfoldable pub placed : Result Text (F × F) → Client F
  placed (err e) = record {
    latitude = floats.default_latitude;
    longitude = floats.default_longitude;
  }
  placed (ok (lat, lon)) = record { latitude = lat; longitude = lon }

  unfoldable pub locate : Result Text (F × F) → Client F → Client F
  unfolding placed
  locate detected c = if is_nowhere c.latitude c.longitude then placed detected else c

  unfoldable pub get_weather : WeatherAnswers F → Client F → Client F × Report F
  unfolding locate fetch_weather
  get_weather answers c = let c' = locate answers.location c in (c', fetch_weather answers c')
