-- ===== src/Weather/Located.antt =====
-- Where the forecast is for.
use ai_assistant_driver.Common.{
  ◌≡◌, refl, sym, ap, ◌∙◌, [], Bool-cases, inl, inr, false, Text, Result, ok, err,
}
use ai_assistant_driver.Weather.Data.{Raw}
use ai_assistant_driver.Weather.{
  Client, WeatherAnswers, Floats, is_nowhere, placed, locate, get_weather, fetch_weather,
  FetchError, Report,
}
use ai_assistant_driver.OpenWrt.Requests.{Exchange}
use ai_assistant_driver.Weather.Web.{Web, forecast_url, fetch_raw, detect_location, get_weather_on}

-- A found place is not the origin, and neither is the default.
abbrev IsSomewhere : {F : Type 0} → Floats F → Result Text (F × F) → Type 0
IsSomewhere floats (ok (lat, lon)) = is_nowhere floats lat lon ≡ false
IsSomewhere floats (err e) =
    is_nowhere floats floats.default_latitude floats.default_longitude ≡ false

module _ {F : Type 0} (floats : Floats F) where
  locate_settled :
      (detected : Result Text (F × F)) (c : Client F)
      → is_nowhere floats c.latitude c.longitude ≡ false
      → locate floats detected c ≡ c
  unfolding locate
  locate_settled detected c h = rw h refl

  locate_somewhere :
      (detected : Result Text (F × F)) (c : Client F)
      → IsSomewhere floats detected
      → let c' = locate floats detected c in is_nowhere floats c'.latitude c'.longitude ≡ false
  unfolding locate placed
  locate_somewhere detected c h = elim (Bool-cases (is_nowhere floats c.latitude c.longitude)) [
    | inl nowhere ↦ rw nowhere (found detected h)
    | inr somewhere ↦ rw somewhere somewhere
  ]
    where
      found :
          (r : Result Text (F × F))
          → IsSomewhere floats r
          → let c' = placed floats r in is_nowhere floats c'.latitude c'.longitude ≡ false
      found (ok (lat, lon)) h = h
      found (err e) h = h

  -- The place of the first forecast stays: whatever the location service answers later, a later
  -- forecast is for the place that the first one found, or took by default when the service failed.
  get_weather-place :
      (first later : WeatherAnswers F) (c : Client F)
      → IsSomewhere floats first.location
      → let c' = (get_weather floats first c).0 in
        get_weather floats later c' ≡ (c', fetch_weather later c')
  unfolding get_weather
  get_weather-place first later c h =
      let c' = locate floats first.location c in
      rw (locate_settled later.location c' (locate_somewhere first.location c h)) refl

  placed_report :
      (answers : WeatherAnswers F) (c : Client F)
      → is_nowhere floats c.latitude c.longitude ≡ false
      → get_weather floats answers c ≡ (c, fetch_weather answers c)
  unfolding get_weather
  placed_report answers c h = rw (locate_settled answers.location c h) refl

  fetched : Client F → Result FetchError (Raw F) → Client F × Report F
  unfolding fetch_weather
  fetched c raw =
      (c, fetch_weather (record { location = err []; forecast = λ latitude longitude. raw }) c)

  get_weather_on-fetched :
      (web : Web F) (c : Client F)
      → is_nowhere floats c.latitude c.longitude ≡ false
      → get_weather_on web floats c ≡ fetched c (fetch_raw web c.latitude c.longitude)
  unfolding get_weather_on fetched fetch_weather
  get_weather_on-fetched web c h =
      placed_report (record { location = detect_location web; forecast = fetch_raw web }) c h

  fetch_raw-get :
      (web : Web F) (get : Text → Exchange) (latitude longitude : F)
      → get (forecast_url web latitude longitude) ≡ web.get (forecast_url web latitude longitude)
      → fetch_raw (record web { get = get }) latitude longitude ≡ fetch_raw web latitude longitude
  unfolding fetch_raw forecast_url
  fetch_raw-get web get latitude longitude same = rw same refl

  -- Once the client has a place, only what the request for the forecast of this place meets counts.
  get_weather_on-placed :
      (web : Web F) (get : Text → Exchange) (c : Client F)
      → is_nowhere floats c.latitude c.longitude ≡ false
      → get (forecast_url web c.latitude c.longitude)
        ≡ web.get (forecast_url web c.latitude c.longitude)
      → get_weather_on (record web { get = get }) floats c ≡ get_weather_on web floats c
  get_weather_on-placed web get c h same =
      get_weather_on-fetched (record web { get = get }) c h
      ∙ ap (fetched c) (fetch_raw-get web get c.latitude c.longitude same)
      ∙ sym (get_weather_on-fetched web c h)
