-- ===== src/Weather/Tool.antt =====
-- internal/tools/weather/weather_tool.go: what the language model is told of the forecast, and what the
-- tool does; json.Marshal and the client's method, where it does not panic, are parameters.
use ai_assistant_driver.Common.{some, Text, codes, Result}
use ai_assistant_driver.Llm.{Tool}
use ai_assistant_driver.Llm.Schema.{Fields, no_fields, field, text, object}
use ai_assistant_driver.Llm.Reports.{report_of}
use ai_assistant_driver.Weather.Data.{WeatherData}

abbrev location_schema : Fields
location_schema =
    field (codes "type") (text (codes "string")) (
      field (codes "description") (text (codes "Optional location override (city name)")) no_fields)

abbrev weather_parameters : Fields
weather_parameters = field (codes "type") (text (codes "object")) (
    field (codes "properties")
      (object (field (codes "location") (object location_schema) no_fields)) no_fields)

unfoldable pub weather_tool :
    {W F : Type 0}
    → (WeatherData F → Result Text Text)
    → (W → W × Result Text (WeatherData F))
    → Tool W
unfolding report_of
weather_tool marshal get_weather = record {
  name = codes "get_weather";
  description =
      codes
        "Get current weather conditions and forecast. Returns current temperature, humidity, wind, and a 7-day forecast including high/low temperatures and weather conditions.";
  parameters = some weather_parameters;
  execute = report_of marshal get_weather;
}
