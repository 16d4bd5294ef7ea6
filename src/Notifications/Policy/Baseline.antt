-- ===== src/Notifications/Policy/Baseline.antt =====
-- The tables of notifications.service.ts: the reading keys of each module, and the alert policies
-- that the service makes sure of when it starts.
use nexusflow_backend.Prelude.{true, false, String, List, none, [], ◌∷◌, whole}
use nexusflow_backend.Value.{null, number, text, array}
use nexusflow_backend.Notifications.Schemas.{
  Operator, gt, lt, ge, le, eq, between, outside, critical, warning, AlertPolicy,
}
use nexusflow_backend.Notifications.Policy.{symbols}

-- MODULE_READING_KEYS
abbrev pub module_reading_keys : List (String × List String)
module_reading_keys =
    ("MQ2-Sensor", "analog" ∷ "digital" ∷ [])
    ∷ ("DHT-Sensor-11", "temperature" ∷ "humidity" ∷ [])
    ∷ ("DHT-Sensor-22", "temperature" ∷ "humidity" ∷ [])
    ∷ ("PIR-Sensor", "motion" ∷ [])
    ∷ ("Rain-Sensor", "analog" ∷ "digital" ∷ [])
    ∷ ("Soil-Sensor", "analog" ∷ "digital" ∷ [])
    ∷ ("Ultrasonic-Sensor", "distance_cm" ∷ [])
    ∷ ("ESP32-gpio-input", "result" ∷ [])
    ∷ ("ESP32-gpio-input-pullup", "result" ∷ [])
    ∷ ("ESP32-gpio-input-analog", "raw" ∷ "result" ∷ [])
    ∷ ("ESP32-gpio-output", "value" ∷ "result" ∷ "raw" ∷ [])
    ∷ ("ESP32-gpio-output-led", "value" ∷ "result" ∷ "raw" ∷ [])
    ∷ ("ESP32-gpio-output-pwm", "value" ∷ "result" ∷ "raw" ∷ [])
    ∷ ("ESP32-gpio-output-dac", "value" ∷ "result" ∷ "raw" ∷ [])
    ∷ ("ESP32-gpio-output-servo", "value" ∷ "result" ∷ "raw" ∷ [])
    ∷ []

-- SIMPLE_AND_RANGE_OPERATORS
abbrev pub simple_and_range : List Operator
simple_and_range = gt ∷ lt ∷ ge ∷ le ∷ eq ∷ between ∷ outside ∷ []

-- EQUALS_ONLY_OPERATOR
abbrev pub equals_only : List Operator
equals_only = eq ∷ []

-- BASELINE_ALERT_POLICIES
abbrev pub baseline_alert_policies : List AlertPolicy
baseline_alert_policies =
    record {
      module_id = "MQ2-Sensor";
      reading_key = "analog";
      label = "MQ2 Gas Level (Analog)";
      required = true;
      threshold_required = true;
      default_enabled = true;
      default_severity = critical;
      default_operator = text ">";
      default_threshold = number (whole 300);
      default_min = null;
      default_max = null;
      supported_operators = array (symbols simple_and_range);
      is_active = true;
      updated_at = none;
    }
    ∷ record {
      module_id = "MQ2-Sensor";
      reading_key = "digital";
      label = "MQ2 Gas Detected (Digital)";
      required = false;
      threshold_required = true;
      default_enabled = true;
      default_severity = critical;
      default_operator = text "=";
      default_threshold = number (whole 1);
      default_min = null;
      default_max = null;
      supported_operators = array (symbols equals_only);
      is_active = true;
      updated_at = none;
    }
    ∷ record {
      module_id = "DHT-Sensor-11";
      reading_key = "temperature";
      label = "Temperature (DHT11)";
      required = false;
      threshold_required = true;
      default_enabled = true;
      default_severity = warning;
      default_operator = text "outside";
      default_threshold = null;
      default_min = number (whole 15);
      default_max = number (whole 35);
      supported_operators = array (symbols simple_and_range);
      is_active = true;
      updated_at = none;
    }
    ∷ record {
      module_id = "DHT-Sensor-11";
      reading_key = "humidity";
      label = "Humidity (DHT11)";
      required = false;
      threshold_required = true;
      default_enabled = true;
      default_severity = warning;
      default_operator = text "outside";
      default_threshold = null;
      default_min = number (whole 30);
      default_max = number (whole 80);
      supported_operators = array (symbols simple_and_range);
      is_active = true;
      updated_at = none;
    }
    ∷ record {
      module_id = "DHT-Sensor-22";
      reading_key = "temperature";
      label = "Temperature (DHT22)";
      required = false;
      threshold_required = true;
      default_enabled = true;
      default_severity = warning;
      default_operator = text "outside";
      default_threshold = null;
      default_min = number (whole 15);
      default_max = number (whole 35);
      supported_operators = array (symbols simple_and_range);
      is_active = true;
      updated_at = none;
    }
    ∷ record {
      module_id = "DHT-Sensor-22";
      reading_key = "humidity";
      label = "Humidity (DHT22)";
      required = false;
      threshold_required = true;
      default_enabled = true;
      default_severity = warning;
      default_operator = text "outside";
      default_threshold = null;
      default_min = number (whole 30);
      default_max = number (whole 80);
      supported_operators = array (symbols simple_and_range);
      is_active = true;
      updated_at = none;
    }
    ∷ record {
      module_id = "PIR-Sensor";
      reading_key = "motion";
      label = "Motion Detected";
      required = false;
      threshold_required = true;
      default_enabled = true;
      default_severity = warning;
      default_operator = text "=";
      default_threshold = number (whole 1);
      default_min = null;
      default_max = null;
      supported_operators = array (symbols equals_only);
      is_active = true;
      updated_at = none;
    }
    ∷ record {
      module_id = "Rain-Sensor";
      reading_key = "analog";
      label = "Rain Intensity (Analog)";
      required = false;
      threshold_required = true;
      default_enabled = true;
      default_severity = warning;
      default_operator = text ">";
      default_threshold = number (whole 1500);
      default_min = null;
      default_max = null;
      supported_operators = array (symbols simple_and_range);
      is_active = true;
      updated_at = none;
    }
    ∷ record {
      module_id = "Rain-Sensor";
      reading_key = "digital";
      label = "Rain Detected (Digital)";
      required = false;
      threshold_required = true;
      default_enabled = true;
      default_severity = warning;
      default_operator = text "=";
      default_threshold = number (whole 1);
      default_min = null;
      default_max = null;
      supported_operators = array (symbols equals_only);
      is_active = true;
      updated_at = none;
    }
    ∷ record {
      module_id = "Soil-Sensor";
      reading_key = "analog";
      label = "Soil Moisture (Analog)";
      required = false;
      threshold_required = true;
      default_enabled = true;
      default_severity = warning;
      default_operator = text ">";
      default_threshold = number (whole 2500);
      default_min = null;
      default_max = null;
      supported_operators = array (symbols simple_and_range);
      is_active = true;
      updated_at = none;
    }
    ∷ record {
      module_id = "Soil-Sensor";
      reading_key = "digital";
      label = "Soil Dry Detected (Digital)";
      required = false;
      threshold_required = true;
      default_enabled = true;
      default_severity = warning;
      default_operator = text "=";
      default_threshold = number (whole 1);
      default_min = null;
      default_max = null;
      supported_operators = array (symbols equals_only);
      is_active = true;
      updated_at = none;
    }
    ∷ record {
      module_id = "Ultrasonic-Sensor";
      reading_key = "distance_cm";
      label = "Distance (cm)";
      required = false;
      threshold_required = true;
      default_enabled = true;
      default_severity = warning;
      default_operator = text "outside";
      default_threshold = null;
      default_min = number (whole 2);
      default_max = number (whole 400);
      supported_operators = array (symbols simple_and_range);
      is_active = true;
      updated_at = none;
    }
    ∷ []
