-- ===== src/Weather/Rows.antt =====
-- A forecast by its rows: an hour or a day with all that is said of it.
use ai_assistant_driver.Common.{
  ℕ, ◌≤◌, ◌<◌, ◌≡◌, refl, ◌⊎◌, inl, inr, Option, none, some, List, [], ◌∷◌, map, length, get_elem?,
  take, Text, ok, arith,
}
use ai_assistant_driver.Common.Int.{ℤ}
use ai_assistant_driver.Weather.Data.{RawHourly, Hourly, RawDaily, Daily, Raw, weather_description}
use ai_assistant_driver.Weather.{
  Client, WeatherAnswers, report, panicked, current_of, hourly_at, daily_at, hourly, daily,
  weather_of, fetch_weather, ◌>>=◌,
}
use ai_assistant_driver.Weather.Columns.{
  length-map, get_elem?-map, collect_rows, collect_missing, get_elem?-none,
}

pub record HourRow (F : Type 0) : Type 0 where
  pub time : Text
  pub temperature : F
  pub weather_code : ℤ
  pub precipitation : F

pub record DayRow (F : Type 0) : Type 0 where
  pub date : Text
  pub temperature_max : F
  pub temperature_min : F
  pub weather_code : ℤ
  pub precipitation_sum : F
  pub sunrise : Text
  pub sunset : Text

take_whole : {A : Type 0} (xs : List A) → take (length xs) xs ≡ xs
take_whole [] = refl
take_whole (x ∷ xs) = rw (take_whole xs) refl

nothing_next : {A D : Type 0} (a : Option A) → ◌>>=◌ {B = D} a (λ x. none) ≡ none
nothing_next none = refl
nothing_next (some a) = refl

nothing_last :
    {A B C D : Type 0} (a : Option A) (b : Option B) (c : Option C)
    → (a >>= λ x. b >>= λ y. ◌>>=◌ {B = D} c (λ z. none)) ≡ none
nothing_last none b c = refl
nothing_last (some a) none c = refl
nothing_last (some a) (some b) none = refl
nothing_last (some a) (some b) (some c) = refl

module _ {F : Type 0} where
  abbrev pub hour_columns : List (HourRow F) → RawHourly F
  hour_columns rows = record {
    time = map (λ r. r.time) rows;
    temperature = map (λ r. r.temperature) rows;
    weather_code = map (λ r. r.weather_code) rows;
    precipitation = map (λ r. r.precipitation) rows;
  }

  abbrev pub day_columns : List (DayRow F) → RawDaily F
  day_columns rows = record {
    time = map (λ r. r.date) rows;
    temperature_max = map (λ r. r.temperature_max) rows;
    temperature_min = map (λ r. r.temperature_min) rows;
    weather_code = map (λ r. r.weather_code) rows;
    precipitation_sum = map (λ r. r.precipitation_sum) rows;
    sunrise = map (λ r. r.sunrise) rows;
    sunset = map (λ r. r.sunset) rows;
  }

  abbrev pub described_hour : HourRow F → Hourly F
  described_hour r = record {
    time = r.time;
    temperature = r.temperature;
    weather_code = r.weather_code;
    weather_description = weather_description r.weather_code;
    precipitation = r.precipitation;
  }

  abbrev pub described_day : DayRow F → Daily F
  described_day r = record {
    date = r.date;
    temperature_max = r.temperature_max;
    temperature_min = r.temperature_min;
    weather_code = r.weather_code;
    weather_description = weather_description r.weather_code;
    precipitation_sum = r.precipitation_sum;
    sunrise = r.sunrise;
    sunset = r.sunset;
  }

  hourly_at-hour_columns :
      (rows : List (HourRow F)) (i : ℕ) (r : HourRow F)
      → get_elem? rows i ≡ some r
      → hourly_at (hour_columns rows) i ≡ some (described_hour r)
  unfolding hourly_at
  hourly_at-hour_columns rows i r h =
      rw
        (
          get_elem?-map (λ r. r.time) rows i r h,
          get_elem?-map (λ r. r.temperature) rows i r h,
          get_elem?-map (λ r. r.weather_code) rows i r h,
          get_elem?-map (λ r. r.precipitation) rows i r h,
        )
        refl

  daily_at-day_columns :
      (rows : List (DayRow F)) (i : ℕ) (r : DayRow F)
      → get_elem? rows i ≡ some r
      → daily_at (day_columns rows) i ≡ some (described_day r)
  unfolding daily_at
  daily_at-day_columns rows i r h =
      rw
        (
          get_elem?-map (λ r. r.date) rows i r h,
          get_elem?-map (λ r. r.temperature_max) rows i r h,
          get_elem?-map (λ r. r.temperature_min) rows i r h,
          get_elem?-map (λ r. r.weather_code) rows i r h,
          get_elem?-map (λ r. r.precipitation_sum) rows i r h,
          get_elem?-map (λ r. r.sunrise) rows i r h,
          get_elem?-map (λ r. r.sunset) rows i r h,
        )
        refl

  hourly-hour_columns :
      (rows : List (HourRow F))
      → hourly (hour_columns rows) ≡ some (map described_hour (take 24 rows))
  unfolding hourly
  hourly-hour_columns rows =
      rw (length-map (λ r. r.time) rows)
        (collect_rows _ described_hour rows (hourly_at-hour_columns rows) 24 0)

  daily-day_columns :
      (rows : List (DayRow F)) → daily (day_columns rows) ≡ some (map described_day rows)
  unfolding daily
  daily-day_columns rows = rw (length-map (λ r. r.date) rows) (
      rw
        (
          collect_rows _ described_day rows (daily_at-day_columns rows) (length rows) 0,
          take_whole rows,
        )
        refl)

  -- A forecast whose columns are those of rows of hours and of days is reported by its rows: the
  -- first 24 hours and all days, each with the description of its code.
  pub fetch_weather-rows :
      (answers : WeatherAnswers F) (c : Client F) (raw : Raw F) (hours : List (HourRow F))
      (days : List (DayRow F))
      → answers.forecast c.latitude c.longitude ≡ ok raw
      → raw.hourly ≡ hour_columns hours
      → raw.daily ≡ day_columns days
      → fetch_weather answers c
        ≡ report (record {
          location = record { lat = raw.latitude; lon = raw.longitude; timezone = raw.timezone };
          current = current_of raw.current;
          hourly = map described_hour (take 24 hours);
          daily = map described_day days;
        })
  unfolding fetch_weather weather_of
  fetch_weather-rows answers c raw hours days answered h d =
      rw
        (
          fetch_weather,
          answered,
          weather_of,
          h,
          d,
          hourly-hour_columns hours,
          daily-day_columns days,
        )
        refl

  missing_hour :
      (raw : RawHourly F) (i : ℕ)
      → (length raw.temperature ≤ i) ⊎ (length raw.precipitation ≤ i)
      → hourly_at raw i ≡ none
  unfolding hourly_at
  missing_hour raw i (inl h) =
      rw (get_elem?-none raw.temperature i h) (nothing_next (get_elem? raw.time i))
  missing_hour raw i (inr h) = rw (get_elem?-none raw.precipitation i h) (
      nothing_last (get_elem? raw.time i) (get_elem? raw.temperature i)
        (get_elem? raw.weather_code i))

  -- If one of the first 24 hours has a time and no temperature, or no precipitation, the forecast is
  -- not an error: the index panics.
  fetch_weather_short :
      (answers : WeatherAnswers F) (c : Client F) (raw : Raw F) (i : ℕ)
      → answers.forecast c.latitude c.longitude ≡ ok raw
      → i < length raw.hourly.time
      → i < 24
      → (length raw.hourly.temperature ≤ i) ⊎ (length raw.hourly.precipitation ≤ i)
      → fetch_weather answers c ≡ panicked
  unfolding fetch_weather weather_of hourly
  fetch_weather_short answers c raw i answered timed early short =
      rw
        (
          fetch_weather,
          answered,
          weather_of,
          hourly,
          collect_missing (hourly_at raw.hourly) (length raw.hourly.time) i
              (missing_hour raw.hourly i short) timed 24 0 (omega arith) (omega arith),
        )
        refl
