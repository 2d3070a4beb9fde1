-- ===== src/Weather/Web.antt =====
-- internal/tools/weather/client.go: the two requests whose answers GetWeather takes. What a request
-- meets, encoding/json and `%.4f` are parameters.
use ai_assistant_driver.Common.{◌++◌, Text, Bytes, codes, Result, ok, err, ◌>>=◌}
use ai_assistant_driver.OpenWrt.Requests.{Exchange}
use ai_assistant_driver.Weather.Data.{Raw}
use ai_assistant_driver.Weather.{
  Client, Report, Floats, FetchError, request_failed, read_failed, parse_failed, get_weather,
}

-- The decoder reads the body itself, so it is given what reading it gives.
pub record Web (F : Type 0) : Type 0 where
  pub get : Text → Exchange
  pub decode_location : Result Text Bytes → Result Text (F × F)
  pub unmarshal_raw : Bytes → Result Text (Raw F)
  pub four_digits : F → Text

-- The error of a step of fetchWeather.
abbrev failing : {A : Type 0} → (Text → FetchError) → Text → Result Text A → Result FetchError A
failing kind prefix (ok a) = ok a
failing kind prefix (err e) = err (kind (prefix ++ (codes ": " ++ e)))

abbrev location_url : Text
location_url = codes "http://ip-api.com/json/"

abbrev forecast_fields : Text
forecast_fields =
    codes "&current=temperature_2m,apparent_temperature,relative_humidity_2m,precipitation,"
    ++ (codes "weather_code,wind_speed_10m,wind_direction_10m,is_day,uv_index"
        ++ (codes "&hourly=temperature_2m,weather_code,precipitation_probability"
            ++ (codes "&daily=weather_code,temperature_2m_max,temperature_2m_min,"
                ++ codes "precipitation_sum,sunrise,sunset&timezone=auto&forecast_days=7")))

module _ {F : Type 0} (web : Web F) where
  -- detectLocation
  unfoldable pub detect_location : Result Text (F × F)
  detect_location =
      let exchange = web.get location_url in
      do made ← exchange.made; sent ← exchange.sent; web.decode_location exchange.body

  unfoldable pub forecast_url : F → F → Text
  forecast_url latitude longitude =
      codes "https://api.open-meteo.com/v1/forecast?latitude="
      ++ (web.four_digits latitude
          ++ (codes "&longitude=" ++ (web.four_digits longitude ++ forecast_fields)))

  -- The request of fetchWeather, and its body as the raw forecast.
  unfoldable pub fetch_raw : F → F → Result FetchError (Raw F)
  unfolding forecast_url
  fetch_raw latitude longitude =
      let exchange = web.get (forecast_url latitude longitude) in
      do
        made ← failing request_failed (codes "failed to create request") exchange.made
        sent ← failing request_failed (codes "failed to fetch weather") exchange.sent
        body ← failing read_failed (codes "failed to read response") exchange.body
        failing parse_failed (codes "failed to parse weather response") (web.unmarshal_raw body)

  -- GetWeather over its requests.
  unfoldable pub get_weather_on : Floats F → Client F → Client F × Report F
  unfolding detect_location fetch_raw get_weather
  get_weather_on floats c =
      get_weather floats (record { location = detect_location; forecast = fetch_raw }) c
