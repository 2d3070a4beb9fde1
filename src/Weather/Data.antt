-- ===== src/Weather/Data.antt =====
-- internal/tools/weather/client.go: the forecast, the answer of open-meteo as encoding/json decodes it,
-- and the texts of the weather codes.
use ai_assistant_driver.Common.{ℕ, Bool, List, [], ◌∷◌, ◌==◌, if◌then◌else◌, Text, codes}
use ai_assistant_driver.Common.Int.{ℤ, pos, negsuc}

pub record Location (F : Type 0) : Type 0 where
  pub lat : F
  pub lon : F
  pub timezone : Text

pub record Current (F : Type 0) : Type 0 where
  pub temperature : F
  pub apparent_temperature : F
  pub humidity : ℤ
  pub wind_speed : F
  pub wind_direction : ℤ
  pub weather_code : ℤ
  pub weather_description : Text
  pub is_day : Bool
  pub uv_index : F
  pub precipitation : F

pub record Hourly (F : Type 0) : Type 0 where
  pub time : Text
  pub temperature : F
  pub weather_code : ℤ
  pub weather_description : Text
  pub precipitation : F

pub record Daily (F : Type 0) : Type 0 where
  pub date : Text
  pub temperature_max : F
  pub temperature_min : F
  pub weather_code : ℤ
  pub weather_description : Text
  pub precipitation_sum : F
  pub sunrise : Text
  pub sunset : Text

pub record WeatherData (F : Type 0) : Type 0 where
  pub location : Location F
  pub current : Current F
  pub hourly : List (Hourly F)
  pub daily : List (Daily F)

-- The response as encoding/json decodes it.
pub record RawCurrent (F : Type 0) : Type 0 where
  pub temperature : F
  pub apparent_temperature : F
  pub humidity : ℤ
  pub precipitation : F
  pub weather_code : ℤ
  pub wind_speed : F
  pub wind_direction : ℤ
  pub is_day : ℤ
  pub uv_index : F

pub record RawHourly (F : Type 0) : Type 0 where
  pub time : List Text
  pub temperature : List F
  pub weather_code : List ℤ
  pub precipitation : List F

pub record RawDaily (F : Type 0) : Type 0 where
  pub time : List Text
  pub temperature_max : List F
  pub temperature_min : List F
  pub weather_code : List ℤ
  pub precipitation_sum : List F
  pub sunrise : List Text
  pub sunset : List Text

pub record Raw (F : Type 0) : Type 0 where
  pub latitude : F
  pub longitude : F
  pub timezone : Text
  pub current : RawCurrent F
  pub hourly : RawHourly F
  pub daily : RawDaily F

abbrev pub descriptions : List (ℕ × Text)
descriptions =
    (0, codes "Clear sky")
    ∷ (1, codes "Mainly clear")
    ∷ (2, codes "Partly cloudy")
    ∷ (3, codes "Overcast")
    ∷ (45, codes "Fog")
    ∷ (48, codes "Depositing rime fog")
    ∷ (51, codes "Light drizzle")
    ∷ (53, codes "Moderate drizzle")
    ∷ (55, codes "Dense drizzle")
    ∷ (56, codes "Light freezing drizzle")
    ∷ (57, codes "Dense freezing drizzle")
    ∷ (61, codes "Slight rain")
    ∷ (63, codes "Moderate rain")
    ∷ (65, codes "Heavy rain")
    ∷ (66, codes "Light freezing rain")
    ∷ (67, codes "Heavy freezing rain")
    ∷ (71, codes "Slight snow fall")
    ∷ (73, codes "Moderate snow fall")
    ∷ (75, codes "Heavy snow fall")
    ∷ (77, codes "Snow grains")
    ∷ (80, codes "Slight rain showers")
    ∷ (81, codes "Moderate rain showers")
    ∷ (82, codes "Violent rain showers")
    ∷ (85, codes "Slight snow showers")
    ∷ (86, codes "Heavy snow showers")
    ∷ (95, codes "Thunderstorm")
    ∷ (96, codes "Thunderstorm with slight hail")
    ∷ (99, codes "Thunderstorm with heavy hail")
    ∷ []

unfoldable description_in : List (ℕ × Text) → ℕ → Text
description_in [] code = codes "Unknown"
description_in ((known, text) ∷ rest) code =
    let later = description_in rest code in if known == code then text else later

-- getWeatherDescription
unfoldable pub weather_description : ℤ → Text
unfolding description_in
weather_description (pos code) = description_in descriptions code
weather_description (negsuc n) = codes "Unknown"
